-- ===== src/Scheduler/Policies/Edge.antt =====
-- latency_first.py and cost_aware.py: which edge node is picked, and when the cloud is.
use g_io_t_edge_gateway.Prelude.{
  ==_eq, All, All-keep, All-map, Any, Any-All, Bool, Bool-cases, List, Option, Option-cases, String,
  [], arith, false, if◌then◌else◌, inl, inr, keep, ltb, nat_eq, none, not, refl, some, string_eq,
  subst, sym, true, ◌==◌, ◌∷◌, ◌≡◌, ◌⊎◌,
}
use g_io_t_edge_gateway.Dict.{values}
use g_io_t_edge_gateway.Floats.{FloatLaws, Floats}
use g_io_t_edge_gateway.Scheduler.Task.{
  InferenceTask, NodeResources, Resources, TaskPlacement, cloud,
}
use g_io_t_edge_gateway.Scheduler.Monitor.{sort_by_cpu}
use g_io_t_edge_gateway.Scheduler.Policies.{
  CostAware, cost_aware, cost_aware_cloud, edge_target, find_node, is_overloaded, is_within,
  latency_first, latency_or, least_loaded, on_cloud, on_edge, pick_edge,
}

module _ (f : Floats) where
  -- `n` is one of the nodes and no node of them has a lower CPU usage.
  abbrev IsLeast : NodeResources f → List (NodeResources f) → Type 0
  IsLeast n ns =
      Any (λ m. n ≡ m) ns × All (λ m. f.lt m.cpu_usage_percent n.cpu_usage_percent ≡ false) ns

  -- `n` is one of the nodes; it is the requesting node, or that one is not among them and `n` is
  -- least loaded.
  abbrev pub Suits : String → List (NodeResources f) → NodeResources f → Type 0
  Suits requesting ns n =
      Any (λ m. n ≡ m) ns
      × ((n.node_id ≡ requesting)
          ⊎ (All (λ m. (m.node_id == requesting) ≡ false) ns
              × All (λ m. f.lt m.cpu_usage_percent n.cpu_usage_percent ≡ false) ns))

  find_some :
      (id : String) (ns : List (NodeResources f)) (n : NodeResources f)
      → find_node f id ns ≡ some n
      → Any (λ m. n ≡ m) ns × (n.node_id ≡ id)
  find_some id [] n e = cc
  find_some id (x ∷ ns) n e = elim (Bool-cases (x.node_id == id)) [
    | inl same ↦
        let is : x ≡ n = ground (arith, same) in
        (inl (sym is), subst (λ (m : NodeResources f). m.node_id ≡ id) is (==_eq x.node_id id same))
    | inr differ ↦ let (there, own) = find_some id ns n (ground (arith, differ)) in (inr there, own)
  ]

  find_none :
      (id : String) (ns : List (NodeResources f))
      → find_node f id ns ≡ none
      → All (λ m. (m.node_id == id) ≡ false) ns
  find_none id [] e = tt
  find_none id (x ∷ ns) e = ground (arith, find_none id ns)

  -- The head of the sorted list, found without sorting.
  unfoldable pub minimum : NodeResources f → Option (NodeResources f) → NodeResources f
  minimum x none = x
  minimum x (some y) = if f.lt y.cpu_usage_percent x.cpu_usage_percent then y else x

  pub least_loaded-cons :
      (x : NodeResources f) (xs : List (NodeResources f))
      → least_loaded f (x ∷ xs) ≡ some (minimum x (least_loaded f xs))
  unfolding least_loaded minimum sort_by_cpu
  least_loaded-cons x xs = ground arith

  module _ (laws : FloatLaws f) where
    minimum-IsLeast :
        (x : NodeResources f) (xs : List (NodeResources f))
        → ((least_loaded f xs ≡ none) × (xs ≡ []))
          ⊎ ((y : NodeResources f) × (least_loaded f xs ≡ some y) × IsLeast y xs)
        → IsLeast (minimum x (least_loaded f xs)) (x ∷ xs)
    unfolding minimum
    minimum-IsLeast x xs (inl (e, empty)) =
        rw (e, empty) (inl refl, (laws.lt_irrefl x.cpu_usage_percent, tt))
    minimum-IsLeast x xs (inr (y, e, (inside, below))) =
        elim (Bool-cases (f.lt y.cpu_usage_percent x.cpu_usage_percent)) [
          | inl less ↦
              let same : y ≡ minimum x (least_loaded f xs) = ground (arith, e, less) in
              subst (λ w. IsLeast w (x ∷ xs)) same
                (
                  inr inside,
                  (
                    ground (
                      arith,
                      laws.lt_irrefl x.cpu_usage_percent,
                      laws.lt_trans x.cpu_usage_percent y.cpu_usage_percent x.cpu_usage_percent,
                    ),
                    below,
                  ),
                )
          | inr more ↦
              let same : x ≡ minimum x (least_loaded f xs) = ground (arith, e, more) in
              subst (λ w. IsLeast w (x ∷ xs)) same
                (
                  inl refl,
                  (
                    laws.lt_irrefl x.cpu_usage_percent,
                    All-map
                        (λ m b. ground (
                          arith,
                          laws.lt_compare m.cpu_usage_percent y.cpu_usage_percent
                              x.cpu_usage_percent,
                        ))
                        xs below,
                  ),
                )
        ]

    pub sorted_nil : least_loaded f [] ≡ none
    unfolding least_loaded sort_by_cpu
    sorted_nil = refl

    least_loaded_lem :
        (ns : List (NodeResources f))
        → ((least_loaded f ns ≡ none) × (ns ≡ []))
          ⊎ ((y : NodeResources f) × (least_loaded f ns ≡ some y) × IsLeast y ns)
    least_loaded_lem [] = inl (sorted_nil, refl)
    least_loaded_lem (x ∷ xs) = inr (
      minimum x (least_loaded f xs),
      least_loaded-cons x xs,
      minimum-IsLeast x xs (least_loaded_lem xs),
    )

    -- The node that is picked suits the request; none is picked only where there is none.
    pub pick_edge_lem :
        (requesting : String) (ns : List (NodeResources f))
        → ((pick_edge f requesting ns ≡ none) × (ns ≡ []))
          ⊎ ((n : NodeResources f) × (pick_edge f requesting ns ≡ some n) × Suits requesting ns n)
    unfolding pick_edge
    pick_edge_lem requesting ns = elim (Option-cases (find_node f requesting ns)) [
      | inr (n, e) ↦
          let (inside, own) = find_some requesting ns n e in
          inr (n, ground (arith, e), (inside, inl own))
      | inl e ↦ elim (least_loaded_lem ns) [
        | inl (le, empty) ↦ inl (ground (arith, e, le), empty)
        | inr (n, le, (inside, least)) ↦
            inr (n, ground (arith, e, le), (inside, inr (find_none requesting ns e, least)))
      ]
    ]

    -- A placement on a suiting node of `healthy`, which has passed `test`.
    abbrev pub OnNode :
        (NodeResources f → Bool)
        → InferenceTask f
        → List (NodeResources f)
        → TaskPlacement f
        → Type 0
    OnNode test task healthy p =
        (n : NodeResources f) × Suits task.requesting_node_id healthy n
        × (test n ≡ true)
        × (p.target_node_id ≡ n.node_id)
        × (p.target ≡ edge_target f (n.node_id == task.requesting_node_id))

    -- The policy always answers: with the cloud exactly where every reporting node is overloaded,
    -- else with a node that is not overloaded, the requesting one if it is among these, else one
    -- with the least CPU usage of them.
    pub latency_first_lem :
        (task : InferenceTask f) (resources : Resources f)
        → let healthy = keep (λ n. not (is_overloaded f n)) (values resources) in
          (p : TaskPlacement f) × (latency_first f task resources ≡ some p)
          × (((healthy ≡ []) × (p.target ≡ cloud))
              ⊎ OnNode (λ n. not (is_overloaded f n)) task healthy p)
    unfolding latency_first keep
    latency_first_lem task [] =
        (on_cloud f task "" (f.lit 500 1) (f.lit 30 2), refl, inl (refl, refl))
    latency_first_lem task (r ∷ rs) =
        let healthy = keep (λ n. not (is_overloaded f n)) (values (r ∷ rs)) in
        elim (pick_edge_lem task.requesting_node_id healthy) [
          | inl (e, empty) ↦
              (on_cloud f task "" (f.lit 500 1) (f.lit 35 2), ground (arith, e), inl (empty, refl))
          | inr (n, e, suits) ↦ (
            on_edge f task n (latency_or f (f.lit 100 1) n)
                (if n.node_id == task.requesting_node_id then f.lit 90 2 else f.lit 80 2),
            ground (arith, e),
            inr (
              n,
              suits,
              Any-All (λ n. not (is_overloaded f n) ≡ true) healthy suits.0
                  (All-keep (λ n. not (is_overloaded f n)) (values (r ∷ rs))),
              refl,
              refl,
            ),
          )
        ]

    -- The policy always answers: with the cloud exactly where the input is not below the threshold
    -- or no reporting node is within the limits; else as the latency-first policy does, among the
    -- nodes within the limits.
    pub cost_aware_lem :
        (c : CostAware f) (task : InferenceTask f) (resources : Resources f)
        → let healthy = keep (is_within f) (values resources) in
          (p : TaskPlacement f) × (cost_aware f c task resources ≡ some p)
          × (((ltb task.input_size_bytes c.small_model_threshold ≡ false) × (p.target ≡ cloud))
              ⊎ ((ltb task.input_size_bytes c.small_model_threshold ≡ true)
                  × (((healthy ≡ []) × (p.target ≡ cloud)) ⊎ OnNode (is_within f) task healthy p)))
    unfolding cost_aware cost_aware_cloud keep
    cost_aware_lem c task resources =
        let healthy = keep (is_within f) (values resources) in
        elim (Bool-cases (ltb task.input_size_bytes c.small_model_threshold)) [
          | inr large ↦
              (cost_aware_cloud f c task resources, ground (arith, large), inl (large, refl))
          | inl small ↦ elim (pick_edge_lem task.requesting_node_id healthy) [
            | inl (e, empty) ↦ (
              cost_aware_cloud f c task resources,
              ground (arith, small, e),
              inr (small, inl (empty, refl)),
            )
            | inr (n, e, suits) ↦ (
              on_edge f task n (latency_or f (f.lit 150 1) n)
                  (if n.node_id == task.requesting_node_id then f.lit 85 2 else f.lit 75 2),
              ground (arith, small, e),
              inr (
                small,
                inr (
                  n,
                  suits,
                  Any-All (λ n. is_within f n ≡ true) healthy suits.0
                      (All-keep (is_within f) (values resources)),
                  refl,
                  refl,
                ),
              ),
            )
          ]
        ]
