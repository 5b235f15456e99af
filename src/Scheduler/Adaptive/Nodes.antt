-- ===== src/Scheduler/Adaptive/Nodes.antt =====
-- adaptive_scheduler.py: which node `evaluate` picks. The loop in one pass agrees with the sort of
-- latency_first.py, on the nodes that the scheduler's own threshold leaves.
use g_io_t_edge_gateway.Scheduler.Adaptive.{
  AdaptiveScheduler, adaptive, adaptive_choice, better, edge_score, find_best, is_node_overloaded,
  latency_ok, latency_or_ema,
}
use g_io_t_edge_gateway.Prelude.{
  All-keep, Any-All, Bool-cases, List, Option, String, [], ap, arith, false, if◌then◌else◌, inl,
  inr, keep, nat_eq, none, not, refl, some, string_eq, true, ◌==◌, ◌∷◌, ◌≡◌, ◌⊎◌,
}
use g_io_t_edge_gateway.Dict.{values}
use g_io_t_edge_gateway.Floats.{FloatLaws, Floats}
use g_io_t_edge_gateway.Scheduler.Task.{
  InferenceTask, NodeResources, Resources, TaskPlacement, cloud,
}
use g_io_t_edge_gateway.Scheduler.Policies.Edge.{
  OnNode, least_loaded-cons, minimum, pick_edge_lem, sorted_nil,
}
use g_io_t_edge_gateway.Scheduler.Policies.{find_node, least_loaded, on_cloud, on_edge, pick_edge}

module _ (f : Floats) (laws : FloatLaws f) where
  -- The node from before the loop against the least loaded one of the loop.
  lighter : Option (NodeResources f) → Option (NodeResources f) → Option (NodeResources f)
  lighter none o = o
  lighter (some b) none = some b
  lighter (some b) (some m) = some (if f.lt m.cpu_usage_percent b.cpu_usage_percent then m else b)

  picked :
      Option (NodeResources f)
      → Option (NodeResources f)
      → Option (NodeResources f)
      → Option (NodeResources f)
  picked own best least = elim own [ some n ↦ some n | none ↦ lighter best least ]

  lighter-better :
      (best : Option (NodeResources f)) (x : NodeResources f) (o : Option (NodeResources f))
      → lighter (some (better f best x)) o ≡ lighter best (some (minimum f x o))
  unfolding lighter minimum
  lighter-better none x none = refl
  lighter-better none x (some y) = ground arith
  lighter-better (some b) x none = ground arith
  lighter-better (some b) x (some y) = ground (
    arith,
    laws.lt_trans y.cpu_usage_percent x.cpu_usage_percent b.cpu_usage_percent,
    laws.lt_compare y.cpu_usage_percent x.cpu_usage_percent b.cpu_usage_percent,
  )

  -- The loop without its `continue`.
  pass : String → Option (NodeResources f) → List (NodeResources f) → Option (NodeResources f)
  pass requesting best [] = best
  pass requesting best (n ∷ ns) =
      let rest = pass requesting (some (better f best n)) ns in
      if n.node_id == requesting then some n else rest

  find_best-pass :
      (a : AdaptiveScheduler f) (requesting : String) (best : Option (NodeResources f))
      (ns : List (NodeResources f))
      → find_best f a requesting best ns
        ≡ pass requesting best (keep (λ n. not (is_node_overloaded f a n)) ns)
  unfolding find_best keep pass
  find_best-pass a requesting best [] = refl
  find_best-pass a requesting best (x ∷ xs) = elim (Bool-cases (is_node_overloaded f a x)) [
    | inl over ↦ rw over (find_best-pass a requesting best xs)
    | inr free ↦ rw free (
        ap (λ r. if x.node_id == requesting then some x else r)
          (find_best-pass a requesting (some (better f best x)) xs))
  ]

  pass-picked :
      (requesting : String) (best : Option (NodeResources f)) (ns : List (NodeResources f))
      → pass requesting best ns ≡ picked (find_node f requesting ns) best (least_loaded f ns)
  unfolding pass picked lighter
  pass-picked requesting best [] = ground (arith, sorted_nil f laws)
  pass-picked requesting best (x ∷ xs) = elim (Bool-cases (x.node_id == requesting)) [
    | inl own ↦ ground (arith, own)
    | inr other ↦ ground (
      arith,
      other,
      pass-picked requesting (some (better f best x)) xs,
      lighter-better best x (least_loaded f xs),
      least_loaded-cons f x xs,
    )
  ]

  -- The loop of `evaluate` picks the node that sorting the nodes which are not overloaded would
  -- pick: the requesting one if it is among them, else the first with the least CPU usage.
  pub find_best-pick_edge :
      (a : AdaptiveScheduler f) (requesting : String) (ns : List (NodeResources f))
      → find_best f a requesting none ns
        ≡ pick_edge f requesting (keep (λ n. not (is_node_overloaded f a n)) ns)
  unfolding pick_edge picked lighter
  find_best-pick_edge a requesting ns =
      let h = keep (λ n. not (is_node_overloaded f a n)) ns in
      ground (arith, find_best-pass a requesting none ns, pass-picked requesting none h)

  slow_choice :
      (a : AdaptiveScheduler f) (task : InferenceTask f) (o : Option (NodeResources f))
      → latency_ok f a ≡ false
      → adaptive_choice f a task o ≡ on_cloud f task a.cloud_endpoint (f.lit 500 1) (f.lit 4 1)
  slow_choice a task none slow = refl
  slow_choice a task (some n) slow = ground (arith, slow)

  -- The policy always answers. It stays on the edge exactly where the average latency is within
  -- the limit and some node is not overloaded, and then takes one that suits the request.
  pub adaptive_lem :
      (a : AdaptiveScheduler f) (task : InferenceTask f) (resources : Resources f)
      → let healthy = keep (λ n. not (is_node_overloaded f a n)) (values resources) in
        (p : TaskPlacement f) × (adaptive f a task resources ≡ some p)
        × (((latency_ok f a ≡ false) × (p.target ≡ cloud))
            ⊎ ((latency_ok f a ≡ true)
                × (((healthy ≡ []) × (p.target ≡ cloud))
                    ⊎ OnNode f laws (λ n. not (is_node_overloaded f a n)) task healthy p)))
  unfolding adaptive keep
  adaptive_lem a task [] = elim (Bool-cases (latency_ok f a)) [
    | inl ok ↦ (
      on_cloud f task a.cloud_endpoint (f.lit 500 1) (f.lit 5 1),
      refl,
      inr (ok, inl (refl, refl)),
    )
    | inr slow ↦
        (on_cloud f task a.cloud_endpoint (f.lit 500 1) (f.lit 5 1), refl, inl (slow, refl))
  ]
  adaptive_lem a task (r ∷ rs) =
      let picks = find_best-pick_edge a task.requesting_node_id (values (r ∷ rs)) in
      let healthy = keep (λ n. not (is_node_overloaded f a n)) (values (r ∷ rs)) in
      elim (Bool-cases (latency_ok f a)) [
        | inr slow ↦ (
          on_cloud f task a.cloud_endpoint (f.lit 500 1) (f.lit 4 1),
          ap some (
              slow_choice a task (find_best f a task.requesting_node_id none (values (r ∷ rs)))
                slow),
          inl (slow, refl),
        )
        | inl ok ↦ elim (pick_edge_lem f laws task.requesting_node_id healthy) [
          | inl (e, empty) ↦ (
            on_cloud f task a.cloud_endpoint (f.lit 500 1) (f.lit 4 1),
            ground (arith, picks, e, ok),
            inr (ok, inl (empty, refl)),
          )
          | inr (n, e, suits) ↦ (
            on_edge f task n (latency_or_ema f a n) (edge_score f a),
            ground (arith, picks, e, ok),
            inr (
              ok,
              inr (
                n,
                suits,
                Any-All (λ n. not (is_node_overloaded f a n) ≡ true) healthy suits.0
                    (All-keep (λ n. not (is_node_overloaded f a n)) (values (r ∷ rs))),
                refl,
                refl,
              ),
            ),
          )
        ]
      ]
