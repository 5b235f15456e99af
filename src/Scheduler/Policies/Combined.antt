-- ===== src/Scheduler/Policies/Combined.antt =====
-- balanced.py: which placement has the better combined score.
use g_io_t_edge_gateway.Prelude.{
  All, All-both, All-map, Any, Bool-cases, List, Option, [], ap, arith, false, if◌then◌else◌, inl,
  inr, keep, nat_eq, none, not, refl, some, string_eq, subst, true, ◌==◌, ◌∷◌, ◌≡◌, ◌⊎◌,
}
use g_io_t_edge_gateway.Dict.{values}
use g_io_t_edge_gateway.Floats.{FloatLaws, Floats}
use g_io_t_edge_gateway.Scheduler.Task.{
  InferenceTask, NodeResources, Resources, TaskPlacement, cloud,
}
use g_io_t_edge_gateway.Scheduler.Policies.{
  Balanced, balanced, best_edge, cloud_score, edge_score, edge_target, is_overloaded, latency_or,
  on_cloud, on_edge,
}

module _ (f : Floats) (p : Balanced f) (task : InferenceTask f) where
  -- The loop without its `continue`.
  argmax :
      Option (NodeResources f) × f.Float
      → List (NodeResources f)
      → Option (NodeResources f) × f.Float
  argmax best [] = best
  argmax (o, s) (n ∷ ns) =
      argmax (if f.lt s (edge_score f p task n) then (some n, edge_score f p task n) else (o, s)) ns

  best_edge-argmax :
      (best : Option (NodeResources f) × f.Float) (ns : List (NodeResources f))
      → best_edge f p task best ns ≡ argmax best (keep (λ n. not (is_overloaded f n)) ns)
  unfolding best_edge argmax keep
  best_edge-argmax best [] = refl
  best_edge-argmax (o, s) (n ∷ ns) =
      ground
        (arith, best_edge-argmax (o, s) ns, best_edge-argmax (some n, edge_score f p task n) ns)

  -- `r` is what the loop from `start` ends with: no score of the list, and not the first one, is
  -- above it, and it is the start or that of a node of the list.
  abbrev IsBest :
      Option (NodeResources f) × f.Float
      → List (NodeResources f)
      → Option (NodeResources f) × f.Float
      → Type 0
  IsBest start ns r =
      All (λ n. f.lt r.1 (edge_score f p task n) ≡ false) ns
      × (f.lt r.1 start.1 ≡ false)
      × ((r ≡ start)
          ⊎ ((n : NodeResources f) × Any (λ m. n ≡ m) ns × (r ≡ (some n, edge_score f p task n))))

  module _ (laws : FloatLaws f) where
    argmax-IsBest :
        (start : Option (NodeResources f) × f.Float) (ns : List (NodeResources f))
        → IsBest start ns (argmax start ns)
    unfolding argmax
    argmax-IsBest start [] = (tt, laws.lt_irrefl start.1, inl refl)
    argmax-IsBest (o, s) (x ∷ xs) = elim (Bool-cases (f.lt s (edge_score f p task x))) [
      | inl more ↦
          let new : Option (NodeResources f) × f.Float = (some x, edge_score f p task x) in
          let (all, above, from) = argmax-IsBest new xs in
          let r = argmax new xs in
          let same : r ≡ argmax (o, s) (x ∷ xs) = ground (arith, more) in
          subst (IsBest (o, s) (x ∷ xs)) same (
            (above, all),
            ground (arith, laws.lt_trans r.1 s (edge_score f p task x)),
            elim from [ inl e ↦ inr (x, inl refl, e) | inr (n, i, e) ↦ inr (n, inr i, e) ],
          )
      | inr less ↦
          let (all, above, from) = argmax-IsBest (o, s) xs in
          let r = argmax (o, s) xs in
          let same : r ≡ argmax (o, s) (x ∷ xs) = ground (arith, less) in
          subst (IsBest (o, s) (x ∷ xs)) same (
            (ground (arith, laws.lt_compare r.1 s (edge_score f p task x)), all),
            above,
            elim from [ inl e ↦ inl e | inr (n, i, e) ↦ inr (n, inr i, e) ],
          )
    ]

    -- The policy always answers, if every edge score is above -1: with a node that is not
    -- overloaded, whose score no other such node exceeds and which is at least the cloud's, or
    -- with the cloud where the cloud's score is above that of every such node.
    pub balanced_lem :
        (resources : Resources f)
        → let healthy = keep (λ n. not (is_overloaded f n)) (values resources) in
          All (λ n. f.lt f.minus_one (edge_score f p task n) ≡ true) healthy
          → (q : TaskPlacement f) × (balanced f p task resources ≡ some q)
            × (((q.target ≡ cloud)
                  × All (λ n. f.lt (edge_score f p task n) (cloud_score f p task) ≡ true) healthy)
                ⊎ ((n : NodeResources f) × Any (λ m. n ≡ m) healthy
                    × All
                        (λ m. f.lt (edge_score f p task n) (edge_score f p task m) ≡ false)
                        healthy
                    × (f.le (cloud_score f p task) (edge_score f p task n) ≡ true)
                    × (q.target_node_id ≡ n.node_id)
                    × (q.target ≡ edge_target f (n.node_id == task.requesting_node_id))))
    unfolding balanced
    balanced_lem resources above =
        let healthy = keep (λ n. not (is_overloaded f n)) (values resources) in
        let same = best_edge-argmax (none, f.minus_one) (values resources) in
        let (all, _, from) = argmax-IsBest (none, f.minus_one) healthy in
        let r = argmax (none, f.minus_one) healthy in
        elim from [
          | inl e ↦ (
            on_cloud f task "" (f.lit 500 1) (f.round (cloud_score f p task)),
            ground (arith, same, e),
            inl (refl, All-both (λ n low high. ground (arith, ap (λ b. b.1) e)) healthy all above),
          )
          | inr (n, i, e) ↦
              elim (Bool-cases (f.le (cloud_score f p task) (edge_score f p task n))) [
                | inl edge ↦ (
                  on_edge f task n (latency_or f (f.lit 100 1) n) (f.round (edge_score f p task n)),
                  ground (arith, same, e, edge),
                  inr (
                    n,
                    i,
                    All-map
                        (λ m low.
                          subst (λ s. f.lt s (edge_score f p task m) ≡ false) (ap (λ b. b.1) e) low)
                        healthy all,
                    edge,
                    refl,
                    refl,
                  ),
                )
                | inr less ↦ (
                  on_cloud f task "" (f.lit 500 1) (f.round (cloud_score f p task)),
                  ground (arith, same, e, less),
                  inl (
                    refl,
                    All-map
                        (λ m low. ground (
                          arith,
                          ap (λ b. b.1) e,
                          laws.le_lt (cloud_score f p task) (edge_score f p task n),
                          laws.lt_compare (edge_score f p task n) (edge_score f p task m)
                              (cloud_score f p task),
                        ))
                        healthy all,
                  ),
                )
              ]
        ]
