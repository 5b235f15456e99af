-- ===== src/Coordination/OtaCoordinator.antt =====
-- services/ota_coordinator.py. The targets are stored nodes, named by their ids. At every await other
-- tasks may change the cluster state: what they do at the n-th await is an argument. Nobody else
-- writes the OTA keys, which have no time to live, so one time stands for all requests. A duration
-- is a number of milliseconds.
pub mod Health
pub mod Rollout
pub mod Endings
pub mod Canary
use Prim.Native.String.{◌++◌ as str_append}
use g_io_t_edge_gateway.Prelude.{
  Bool, List, Option, String, [], false, if◌then◌else◌, ltb, map, nat_eq, none, some, string_eq,
  suc, true, zero, ℕ, ◌+◌, ◌∷◌,
}
use g_io_t_edge_gateway.Dict.{Dict, erase, insert}
use g_io_t_edge_gateway.Shared.Outcome.{down, fine, lost, Outcome as RequestEnd}
use g_io_t_edge_gateway.Redis.{Redis}
use g_io_t_edge_gateway.Coordination.ClusterState.{
  ClusterNode, ClusterState, change, get_alive_peers, get_node, is_alive,
}

-- `{_OTA_PREFIX}node:{node_id}:target_version`.
unfoldable pub target_key : String → String
target_key id = str_append "iot-gateway:ota:node:" (str_append id ":target_version")

abbrev pub events_key : String
events_key = "iot-gateway:ota:events"

abbrev pub is_healthy : Option ClusterNode → Bool
is_healthy none = false
is_healthy (some n) = is_alive n.status

-- The default `poll_interval`, which every call uses.
abbrev pub poll_interval : ℕ
poll_interval = 2000

-- How a rollout ends: with the results, with the RuntimeError for a node, with an exception of Redis,
-- or (never, as a theorem shows) out of fuel.
pub data Outcome : Type 0 where
  completed : Dict String String → Outcome
  unhealthy : String → Outcome
  raised stuck : Outcome

-- What follows a health check: it ran out of fuel, it passed, or it failed.
abbrev pub on_check {ℓ} : {A : Type ℓ} → Option Bool → A → A → A → A
on_check none out_of_fuel passed failed = out_of_fuel
on_check (some true) out_of_fuel passed failed = passed
on_check (some false) out_of_fuel passed failed = failed

abbrev pub with_metadata : (Dict String String → Dict String String) → ClusterNode → ClusterNode
with_metadata f n = record n { metadata = f n.metadata }

-- The state that a rollout works on; `awaits` counts the awaits so far. `answers` says how a request
-- to Redis ends that is the n-th await, and `replaced` whether a join has put another object under
-- an id by then, so that the rollout's own object of the node is no longer in the cluster state.
pub record Ota (r : Redis) : Type 0 where
  pub cluster : ClusterState
  pub db : r.Db
  pub awaits : ℕ
  pub answers : ℕ → RequestEnd
  pub replaced : ℕ → String → Bool

-- The cluster state after a change of the rollout's object of a node.
abbrev pub touch : {r : Redis} → String → (ClusterNode → ClusterNode) → Ota r → ClusterState
touch id f o = if o.replaced o.awaits id then o.cluster else change o.cluster id f

module _ (r : Redis) (t : ℕ) (payload : String → String → List String → String) where
  module _ (others : ℕ → ClusterState → ClusterState) where
    -- One await: the other tasks run.
    abbrev pub await : Ota r → Ota r
    await o = record o { cluster = others o.awaits o.cluster; awaits = o.awaits + 1 }

    -- The loop of `_wait_for_health`; `none` means that the fuel ran out.
    unfoldable pub wait_loop : ℕ → ℕ → ℕ → ℕ → Ota r → String → Ota r × Option Bool
    wait_loop zero timeout poll elapsed o id = (o, none)
    wait_loop (suc fuel) timeout poll elapsed o id =
        let rest = wait_loop fuel timeout poll (elapsed + poll) (await o) id in
        if ltb elapsed timeout
        then (if is_healthy (get_node o.cluster id) then (o, some true) else rest)
        else (o, some false)

    -- Each round adds `poll` to `elapsed`, so one round more than `timeout` is enough for `0 < poll`.
    unfoldable pub wait_for_health : ℕ → ℕ → Ota r → String → Ota r × Option Bool
    unfolding wait_loop
    wait_for_health timeout poll o id = wait_loop (suc timeout) timeout poll 0 o id

    -- A request that takes the database to `db`; whether it was answered, or else raised.
    abbrev pub ends_as : RequestEnd → r.Db → Ota r → Ota r × Bool
    ends_as fine db o = (await (record o { db = db }), true)
    ends_as lost db o = (await (record o { db = db }), false)
    ends_as down db o = (await o, false)

    abbrev pub request : r.Db → Ota r → Ota r × Bool
    request db o = ends_as (o.answers o.awaits) db o

    unfoldable pub update_node : Ota r → String → String → Ota r × Bool
    update_node o id firmware =
        request (r.set t o.db (target_key id) firmware none false).0
          (record o { cluster = touch id (with_metadata (insert "pending_firmware" firmware)) o })

    unfoldable pub rollback_node : Ota r → String → Ota r × Bool
    rollback_node o id =
        request (r.delete t o.db (target_key id ∷ []))
          (record o { cluster = touch id (with_metadata (erase "pending_firmware")) o })

    unfoldable pub record_ota_event : Ota r → String → String → List String → Ota r × Bool
    record_ota_event o firmware event ids =
        request (r.rpush o.db events_key (payload firmware event ids)) o

    -- What follows a request; an exception ends the rollout, since whoever catches it raises it
    -- again.
    abbrev pub and_then : Ota r × Bool → (Ota r → Ota r × Outcome) → Ota r × Outcome
    and_then (o, true) rest = rest o
    and_then (o, false) rest = (o, raised)

    module _ (health_timeout : ℕ) (firmware : String) where
      -- The wait for a node, and what follows it.
      abbrev pub check_health :
          Ota r → String → (Ota r → Ota r × Outcome) → (Ota r → Ota r × Outcome) → Ota r × Outcome
      check_health o id passed failed =
          let (o', healthy) = wait_for_health health_timeout poll_interval o id in
          on_check healthy (o', stuck) (passed o') (failed o')

      -- `nodes or get_alive_peers()`: an empty list of targets means all alive nodes, as `None`
      -- does.
      unfoldable pub targets_of : ClusterState → List String → List String
      targets_of s [] = map (λ (n : ClusterNode). n.node_id) (get_alive_peers s none)
      targets_of s (id ∷ ids) = id ∷ ids

      -- A failed node of a rolling update is rolled back and the failure recorded.
      unfoldable pub fail_rolling : String → Ota r → Ota r × Outcome
      fail_rolling id o = and_then (rollback_node o id) (λ o'.
          and_then (record_ota_event o' firmware "rolling_update_failed" (id ∷ []))
            (λ o''. (o'', unhealthy id)))

      -- A failed node of a canary update is rolled back.
      unfoldable pub fail_canary : String → Ota r → Ota r × Outcome
      fail_canary id o = and_then (rollback_node o id) (λ o'. (o', unhealthy id))

      -- The loop of `start_rolling_update`.
      unfoldable pub rolling_loop : Ota r → Dict String String → List String → Ota r × Outcome
      rolling_loop o results [] = (o, completed results)
      rolling_loop o results (id ∷ ids) = and_then (update_node o id firmware) (λ o'.
          check_health o' id (λ o''. rolling_loop o'' (insert id "updated" results) ids)
            (fail_rolling id))

      -- A completed rollout is recorded.
      unfoldable pub finish : String → Ota r × Outcome → Ota r × Outcome
      finish event (o, completed results) =
          and_then (record_ota_event o firmware event []) (λ o'. (o', completed results))
      finish event (o, unhealthy id) = (o, unhealthy id)
      finish event (o, raised) = (o, raised)
      finish event (o, stuck) = (o, stuck)

      unfoldable pub start_rolling_update : Ota r → List String → Ota r × Outcome
      start_rolling_update o ids =
          let targets = targets_of o.cluster ids in
          and_then (record_ota_event o firmware "rolling_update_started" targets)
            (λ o'. finish "rolling_update_completed" (rolling_loop o' [] targets))

      -- Phase 3 of `start_canary_update`.
      unfoldable pub canary_loop : Ota r → Dict String String → List String → Ota r × Outcome
      canary_loop o results [] = (o, completed results)
      canary_loop o results (id ∷ ids) = and_then (update_node o id firmware) (λ o'.
          check_health o' id (λ o''. canary_loop o'' (insert id "updated" results) ids)
            (fail_canary id))

      -- Phase 2, the watch period and the second health check, and then phase 3.
      unfoldable pub watch_canary : String → List String → Ota r → Ota r × Outcome
      watch_canary canary remaining o =
          check_health (await o) canary
            (λ o'.
              finish "canary_update_completed"
                (canary_loop o' (insert canary "canary_updated" []) remaining))
            (fail_canary canary)

      -- Phase 1, and then the others.
      unfoldable pub run_canary : Ota r → String → List String → Ota r × Outcome
      run_canary o canary remaining =
          and_then (record_ota_event o firmware "canary_update_started" (canary ∷ [])) (λ o'.
            and_then (update_node o' canary firmware)
              (λ o''. check_health o'' canary (watch_canary canary remaining) (fail_canary canary)))

      unfoldable pub on_alive : Ota r → List String → Ota r × Outcome
      on_alive o [] = (o, completed [])
      on_alive o (canary ∷ remaining) = run_canary o canary remaining

      unfoldable pub start_canary_update : Ota r → Ota r × Outcome
      start_canary_update o =
          on_alive o (map (λ (n : ClusterNode). n.node_id) (get_alive_peers o.cluster none))
