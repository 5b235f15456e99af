-- ===== src/Coordination/OtaCoordinator/Canary.antt =====
-- ota_coordinator.py: how canary updates end.
use g_io_t_edge_gateway.Prelude.{
  List, String, [], nat_eq, some, string_eq, true, ℕ, ◌==◌, ◌∷◌, ◌≡◌, ◌⊎◌,
}
use g_io_t_edge_gateway.Redis.{Redis, RedisLaws}
use g_io_t_edge_gateway.Coordination.ClusterState.{ClusterState}
use g_io_t_edge_gateway.Coordination.OtaCoordinator.{
  Ota, Outcome, await, poll_interval, wait_for_health,
}
use g_io_t_edge_gateway.Coordination.OtaCoordinator.Endings.{Deployed, health_answer, now_target}

module _ (r : Redis) (laws : RedisLaws r) (t : ℕ) (payload : String → String → List String → String)
    (others : ℕ → ClusterState → ClusterState) (health_timeout : ℕ) (firmware : String) where
  -- The canary has passed two checks: one after its update, and one after the watch period that
  -- follows.
  abbrev pub Watched : String → Ota r → Type 0
  Watched canary o =
      (w : Ota r) × Deployed r laws t payload others health_timeout firmware (canary ∷ []) o w
      × (health_answer r laws t payload others health_timeout firmware w canary ≡ some true)
      × (health_answer r laws t payload others health_timeout firmware
            (await r t payload others
              (wait_for_health r t payload others health_timeout poll_interval w canary).0)
            canary
          ≡ some true)

  -- No node but the canary has another target than it had.
  abbrev pub Untouched : String → Ota r → Ota r → Type 0
  Untouched canary o o' =
      (j : String)
      → ((canary == j) ≡ true)
        ⊎ (now_target r laws t payload others health_timeout firmware o' j
            ≡ now_target r laws t payload others health_timeout firmware o j)

  abbrev Guarded : String → Ota r → Ota r × Outcome → Type 0
  Guarded canary o (o', out) = Watched canary o ⊎ Untouched canary o o'

  -- The first of the nodes that are alive.
  abbrev pub CanaryFirst : List String → Ota r → Ota r → Type 0
  CanaryFirst [] o o' =
      (j : String)
      → now_target r laws t payload others health_timeout firmware o' j
        ≡ now_target r laws t payload others health_timeout firmware o j
  CanaryFirst (canary ∷ remaining) o o' = Watched canary o ⊎ Untouched canary o o'
