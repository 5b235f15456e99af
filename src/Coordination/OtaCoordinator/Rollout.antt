-- ===== src/Coordination/OtaCoordinator/Rollout.antt =====
-- ota_coordinator.py: what the requests of a rollout leave in Redis, and how a rollout may end.
use Prim.Native.String.{◌++◌ as str_append}
use text.Mathlib.TextLemmas.{append_cancel_left, append_cancel_right}
use g_io_t_edge_gateway.Prelude.{
  ==_eq, ==_false, ==_ne, ==_refl, Bool, Bool-cases, List, Option, String, [], ap, arith, contains,
  false, if◌then◌else◌, inl, inr, length, nat_eq, none, refl, some, string_eq, suc, true, zero, ℕ,
  ◌++◌, ◌+◌, ◌==◌, ◌∷◌, ◌≡◌, ◌≤◌, ◌⊎◌,
}
use g_io_t_edge_gateway.Dict.{Dict, erase, insert}
use g_io_t_edge_gateway.Redis.{Redis, RedisLaws}
use g_io_t_edge_gateway.Shared.Outcome.{down, fine, lost, Outcome as RequestEnd}
use g_io_t_edge_gateway.Coordination.ClusterState.{ClusterState}
use g_io_t_edge_gateway.Coordination.OtaCoordinator.{
  Ota, Outcome, and_then, await, check_health, completed, ends_as, events_key, on_check,
  poll_interval, raised, record_ota_event, request, rollback_node, stuck, target_key, touch,
  unhealthy, update_node, wait_for_health, wait_loop, with_metadata,
}
use g_io_t_edge_gateway.Coordination.OtaCoordinator.Health.{wait_for_health_iff}

target_key-injective : (i j : String) → target_key i ≡ target_key j → i ≡ j
unfolding target_key
target_key-injective i j e = append_cancel_right i j ":target_version" (
    append_cancel_left "iot-gateway:ota:node:" (str_append i ":target_version")
      (str_append j ":target_version") e)

target_key-== : (i j : String) → (target_key i == target_key j) ≡ (i == j)
target_key-== i j = elim (Bool-cases (i == j)) [
  | inl same ↦ rw same (rw (==_eq i j same) (==_refl (target_key j)))
  | inr differ ↦
      rw differ (
        ==_ne (target_key i) (target_key j) (λ e. ==_false i j differ (target_key-injective i j e)))
]

module _ (r : Redis) (t : ℕ) (payload : String → String → List String → String)
    (others : ℕ → ClusterState → ClusterState) (health_timeout : ℕ) (firmware : String) where
  -- The firmware that Redis has as the target of a node.
  abbrev pub aim : Ota r → String → Option String
  aim o id = r.get t o.db (target_key id)

  -- The answer of the wait for a node.
  abbrev pub answer : Ota r → String → Option Bool
  answer o id = (wait_for_health r t payload others health_timeout poll_interval o id).1

  -- All the targets have the new firmware and all other nodes have the target that they had.
  abbrev pub AllDeployed : List String → Ota r → Ota r → Type 0
  AllDeployed ids o o' =
      (j : String) → aim o' j ≡ (if contains j ids then some firmware else aim o j)

  -- The targets before the one that failed have the new firmware, the failed one has no target, and
  -- all other nodes have the one they had.
  abbrev pub StoppedAt : String → List String → Ota r → Ota r → Type 0
  StoppedAt id before o o' =
      (j : String)
      → aim o' j ≡ (if id == j then none else if contains j before then some firmware else aim o j)

  -- As `AllDeployed`, but for the nodes of `touched`, of which nothing is said.
  abbrev pub DeployedBut : List String → List String → Ota r → Ota r → Type 0
  DeployedBut touched before o o' =
      (j : String)
      → (contains j touched ≡ true)
        ⊎ (aim o' j ≡ (if contains j before then some firmware else aim o j))

  -- Each of the nodes has passed a health check that began when it and those before it had the new
  -- firmware as their targets, and no other node another target than at first.
  pub data Passed (o : Ota r) : List String → Type 0 where
    nobody : Passed o []
    further :
        (before : List String) (id : String) (w : Ota r)
        → Passed o before
        → AllDeployed (before ++ id ∷ []) o w
        → answer w id ≡ some true
        → Passed o (before ++ id ∷ [])

  -- How a rollout to `ids` may end: all are updated and have passed; one failed its check, and those
  -- before it had passed; or Redis raised, when those before had passed, with at most one node whose
  -- target is not known.
  pub data Ends (ids : List String) (o o' : Ota r) : Outcome → Type 0 where
    all_done :
        (results : Dict String String)
        → Passed o ids
        → AllDeployed ids o o'
        → Ends ids o o' (completed results)
    stopped :
        (before : List String) (id : String) (after : List String) (w : Ota r)
        → ids ≡ before ++ id ∷ after
        → Passed o before
        → AllDeployed (before ++ id ∷ []) o w
        → answer w id ≡ some false
        → StoppedAt id before o o'
        → Ends ids o o' (unhealthy id)
    broken :
        (before touched after : List String)
        → ids ≡ before ++ (touched ++ after)
        → length touched ≤ 1
        → Passed o before
        → DeployedBut touched before o o'
        → Ends ids o o' raised

  -- A request that leaves the targets `new`: it was carried out, or it raised without effect.
  pub data After (new : String → Option String) (o : Ota r) : Ota r × Bool → Type 0 where
    carried_out :
        (o' : Ota r) (answered : Bool)
        → ((j : String) → aim o' j ≡ new j)
        → After new o (o', answered)
    without_effect : (o' : Ota r) → ((j : String) → aim o' j ≡ aim o j) → After new o (o', false)

  -- The request is made when the targets are still those of `o`.
  pub request-After :
      (new : String → Option String) (db : r.Db) (o o' : Ota r)
      → ((j : String) → aim o' j ≡ aim o j)
      → ((j : String) → r.get t db (target_key j) ≡ new j)
      → After new o (request r t payload others db o')
  request-After new db o o' same is_new = by_answer (o'.answers o'.awaits)
    where
      by_answer : (e : RequestEnd) → After new o (ends_as r t payload others e db o')
      by_answer fine = carried_out _ true is_new
      by_answer lost = carried_out _ false is_new
      by_answer down = without_effect _ same

  -- A property of the end of `and_then`, by the ways that the request can end.
  pub and_then-lem :
      (G : Ota r × Outcome → Type 0) (new : String → Option String) (o : Ota r) (p : Ota r × Bool)
      (rest : Ota r → Ota r × Outcome)
      → After new o p
      → ((o' : Ota r) → ((j : String) → aim o' j ≡ new j) → G (rest o'))
      → ((o' : Ota r) → ((j : String) → (aim o' j ≡ new j) ⊎ (aim o' j ≡ aim o j)) → G (o', raised))
      → G (and_then r t payload others p rest)
  and_then-lem G new o p rest (carried_out o' true is_new) good bad = good o' is_new
  and_then-lem G new o p rest (carried_out o' false is_new) good bad = bad o' (λ j. inl (is_new j))
  and_then-lem G new o p rest (without_effect o' same) good bad = bad o' (λ j. inr (same j))

  wait_loop-db :
      (fuel timeout poll elapsed : ℕ) (o : Ota r) (id : String)
      → (wait_loop r t payload others fuel timeout poll elapsed o id).0.db ≡ o.db
  unfolding wait_loop
  wait_loop-db zero timeout poll elapsed o id = refl
  wait_loop-db (suc fuel) timeout poll elapsed o id =
      ground
        (arith, wait_loop-db fuel timeout poll (elapsed + poll) (await r t payload others o) id)

  wait_for_health-db :
      (o : Ota r) (id : String)
      → (wait_for_health r t payload others health_timeout poll_interval o id).0.db ≡ o.db
  unfolding wait_for_health
  wait_for_health-db o id = wait_loop-db (suc health_timeout) health_timeout poll_interval 0 o id

  on_check-lem :
      (G : Ota r × Outcome → Type 0) (healthy : Option Bool) (b : Bool)
      (out_of_fuel passed failed : Ota r × Outcome)
      → healthy ≡ some b
      → (healthy ≡ some true → G passed)
      → (healthy ≡ some false → G failed)
      → G (on_check healthy out_of_fuel passed failed)
  on_check-lem G none b out_of_fuel passed failed e p q = absurd (ground (arith, e))
  on_check-lem G (some true) b out_of_fuel passed failed e p q = p refl
  on_check-lem G (some false) b out_of_fuel passed failed e p q = q refl

  -- A property of the end of `check_health`, by the answer of the check, which leaves the targets.
  pub check_health-lem :
      (G : Ota r × Outcome → Type 0) (o : Ota r) (id : String)
      (passed failed : Ota r → Ota r × Outcome)
      → ((o' : Ota r)
          → o' ≡ (wait_for_health r t payload others health_timeout poll_interval o id).0
          → ((j : String) → aim o' j ≡ aim o j)
          → answer o id ≡ some true
          → G (passed o'))
      → ((o' : Ota r)
          → ((j : String) → aim o' j ≡ aim o j)
          → answer o id ≡ some false
          → G (failed o'))
      → G (check_health r t payload others health_timeout firmware o id passed failed)
  check_health-lem G o id passed failed good bad =
      let (b, e, _) =
        wait_for_health_iff r t payload others health_timeout poll_interval o id (omega arith) in
      let o' : Ota r = (wait_for_health r t payload others health_timeout poll_interval o id).0 in
      let same : (j : String) → aim o' j ≡ aim o j =
        λ j. ap (λ (d : r.Db). r.get t d (target_key j)) (wait_for_health-db o id) in
      on_check-lem G (answer o id) b (o', stuck) (passed o') (failed o') e (good o' refl same)
        (bad o' same)

  module _ (laws : RedisLaws r) where
    pub update_node-After :
        (o : Ota r) (id : String)
        → After
            (λ j. if id == j then some firmware else aim o j)
            o
            (update_node r t payload others o id firmware)
    unfolding update_node
    update_node-After o id =
        request-After (λ j. if id == j then some firmware else aim o j)
          (r.set t o.db (target_key id) firmware none false).0 o
          (record o { cluster = touch id (with_metadata (insert "pending_firmware" firmware)) o })
          (λ j. refl)
          (λ j. ground (
            arith,
            laws.get_set t t o.db (target_key id) firmware none (target_key j) (omega arith),
            target_key-== id j,
          ))

    pub rollback_node-After :
        (o : Ota r) (id : String)
        → After (λ j. if id == j then none else aim o j) o (rollback_node r t payload others o id)
    unfolding rollback_node contains
    rollback_node-After o id =
        request-After (λ j. if id == j then none else aim o j)
          (r.delete t o.db (target_key id ∷ [])) o
          (record o { cluster = touch id (with_metadata (erase "pending_firmware")) o }) (λ j. refl)
          (λ j. ground (
            arith,
            laws.get_delete t t o.db (target_key id ∷ []) (target_key j) (omega arith),
            target_key-== id j,
          ))

    pub record_ota_event-After :
        (o : Ota r) (event : String) (ids : List String)
        → After (aim o) o (record_ota_event r t payload others o firmware event ids)
    unfolding record_ota_event
    record_ota_event-After o event ids =
        request-After (aim o) _ o o (λ j. refl)
          (λ j. laws.get_rpush t o.db events_key (payload firmware event ids) (target_key j))
