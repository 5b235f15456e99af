-- ===== src/Coordination/OtaCoordinator/Health.antt =====
-- ota_coordinator.py, `_wait_for_health`: when it returns, and what.
use g_io_t_edge_gateway.Prelude.{
  Bool, Bool-cases, List, String, arith, false, inl, inr, ltb, ltb→lt, nat_eq, not_ltb→le, refl,
  some, string_eq, suc, true, zero, ℕ, ◌*◌, ◌+◌, ◌-◌, ◌<◌, ◌↔◌, ◌≡◌,
}
use g_io_t_edge_gateway.Redis.{Redis}
use g_io_t_edge_gateway.Coordination.ClusterState.{ClusterState, get_node}
use g_io_t_edge_gateway.Coordination.OtaCoordinator.{
  Ota, await, is_healthy, wait_for_health, wait_loop,
}

module _ (r : Redis) (t : ℕ) (payload : String → String → List String → String)
    (others : ℕ → ClusterState → ClusterState) where
  -- The state after a number of sleeps.
  pub slept : ℕ → Ota r → Ota r
  slept zero o = o
  slept (suc k) o = slept k (await r t payload others o)

  -- The node is ALIVE at one of the polls that begin before the timeout.
  abbrev pub Recovers : ℕ → ℕ → ℕ → Ota r → String → Type 0
  Recovers timeout poll elapsed o id =
      (k : ℕ) × (elapsed + k * poll < timeout)
      × (is_healthy (get_node (slept k o).cluster id) ≡ true)

  wait_loop_lem :
      (fuel timeout poll elapsed : ℕ) (o : Ota r) (id : String)
      → 0 < poll
      → timeout - elapsed < fuel
      → (b : Bool) × ((wait_loop r t payload others fuel timeout poll elapsed o id).1 ≡ some b)
        × ((b ≡ true) ↔ Recovers timeout poll elapsed o id)
  unfolding wait_loop slept
  wait_loop_lem zero timeout poll elapsed o id p f = absurd (omega arith)
  wait_loop_lem (suc fuel) timeout poll elapsed o id p f = elim (Bool-cases (ltb elapsed timeout)) [
    | inr over ↦ (
      false,
      ground arith,
      ((λ e. cc), λ (k, before, _). absurd (omega (arith, not_ltb→le elapsed timeout over))),
    )
    | inl more ↦ elim (Bool-cases (is_healthy (get_node o.cluster id))) [
      | inl fine ↦ (
        true,
        ground arith,
        ((λ e. (zero, omega (arith, ltb→lt elapsed timeout more), fine)), λ x. refl),
      )
      | inr ill ↦
          let (b, result, means) =
            wait_loop_lem fuel timeout poll (elapsed + poll) (await r t payload others o) id p
              (omega (arith, ltb→lt elapsed timeout more)) in
          (b, ground (arith, result), ((λ e. later (means.0 e)), λ x. means.1 (sooner x ill)))
    ]
  ]
    where
      later :
          Recovers timeout poll (elapsed + poll) (await r t payload others o) id
          → Recovers timeout poll elapsed o id
      later (k, before, fine) = (suc k, grind arith, fine)

      sooner :
          Recovers timeout poll elapsed o id
          → is_healthy (get_node o.cluster id) ≡ false
          → Recovers timeout poll (elapsed + poll) (await r t payload others o) id
      sooner (zero, before, fine) ill = ground arith
      sooner (suc k, before, fine) ill = (k, grind arith, fine)

  -- The wait always ends. It answers true exactly when the node is ALIVE in the cluster state at one
  -- of the polls that begin before the timeout, the first of them before any sleep.
  pub wait_for_health_iff :
      (timeout poll : ℕ) (o : Ota r) (id : String)
      → 0 < poll
      → (b : Bool) × ((wait_for_health r t payload others timeout poll o id).1 ≡ some b)
        × ((b ≡ true) ↔ (
            (k : ℕ) × (k * poll < timeout) × (is_healthy (get_node (slept k o).cluster id) ≡ true)))
  unfolding wait_for_health
  wait_for_health_iff timeout poll o id p =
      let (b, result, means) = wait_loop_lem (suc timeout) timeout poll 0 o id p (omega arith) in
      (
        b,
        result,
        (
          (λ e. let (k, before, fine) = means.0 e in (k, omega (arith, before), fine)),
          λ (k, before, fine). means.1 (k, omega (arith, before), fine),
        ),
      )
