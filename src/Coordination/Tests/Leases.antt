-- ===== src/Coordination/Tests/Leases.antt =====
-- The theorems on leader election, config sync and rollouts over the database in memory.
use Prim.Native.String.{◌++◌ as str_append}
use g_io_t_edge_gateway.Prelude.{
  ==_false, Bool, List, String, [], arith, false, if◌then◌else◌, inl, inr, nat_eq, none, refl, some,
  string_eq, suc, true, zero, ℕ, ◌*◌, ◌<◌, ◌==◌, ◌↔◌, ◌∷◌, ◌≡◌, ◌⊎◌,
}
use g_io_t_edge_gateway.Dict.{Dict, lookup}
use g_io_t_edge_gateway.Redis.InMemory.{Cell, count_marks, in_memory, in_memory-laws, read, write}
use g_io_t_edge_gateway.Coordination.ClusterState.{ClusterState, get_node}
use g_io_t_edge_gateway.Coordination.LeaderElection.{LeaderElection, lock_key, try_acquire}
use g_io_t_edge_gateway.Coordination.LeaderElection.Lease.{
  Action, act_all, lease_excludes, quiet, releases, tries,
}
use g_io_t_edge_gateway.Coordination.LeaderElection.Race.{try_acquire_iff, two_leaders}
use g_io_t_edge_gateway.Coordination.ConfigSync.{
  ConfigSync, Json, Notification, get_local, set_local, write_config,
}
use g_io_t_edge_gateway.Coordination.ConfigSync.Keys.{write_config_collision}
use g_io_t_edge_gateway.Coordination.ConfigSync.Replay.{replay, replay_converges}
use g_io_t_edge_gateway.Coordination.OtaCoordinator.{Ota, is_healthy, wait_for_health}
use g_io_t_edge_gateway.Coordination.OtaCoordinator.Health.{slept, wait_for_health_iff}
use g_io_t_edge_gateway.Shared.Outcome.{fine, lost, Outcome as RequestEnd}
use g_io_t_edge_gateway.Coordination.Tests.Cluster.{cluster}

abbrev node_a : LeaderElection
node_a = record { node_id = "a"; ttl = 15; is_leader = false }

abbrev node_b : LeaderElection
node_b = record { node_id = "b"; ttl = 15; is_leader = false }

abbrev rivals : List Action
rivals = tries node_b 1000 1001 1002 ∷ releases node_b 2000 2001 ∷ []

lease_excludes_example :
    let d = (try_acquire in_memory 0 1 2 quiet quiet [] node_a).0 in
    act_all in_memory d rivals ≡ (d, false)
unfolding write read lookup
lease_excludes_example =
    (lease_excludes in_memory in_memory-laws 0 1 2 quiet quiet [] node_a rivals (omega arith)
      (omega arith) (unfold try_acquire in refl)
      (
        ((==_false {A = String} "b" "a" refl), omega arith, omega arith, omega arith),
        (((==_false {A = String} "b" "a" refl), omega arith, omega arith), tt),
      )).0

-- The lock that `a` took at time 0, for 15 seconds.
abbrev locked : Dict String Cell
locked = (lock_key, record { value = "a"; written = 0; ex = some 15 }) ∷ []

two_leaders_example :
    let steal = λ (x : Dict String Cell).
      try_acquire in_memory 15000000 15000000 15000000 quiet quiet x node_b in
    (steal locked).2 ≡ true
unfolding read lookup
two_leaders_example =
    (two_leaders in_memory in_memory-laws 14000000 14900000 15000000 15500000 locked node_a node_b
      (omega arith) (omega arith) (omega arith) (omega arith) refl refl refl).0

try_acquire_iff_example :
    ((try_acquire in_memory 5 5 5 quiet quiet locked node_b).2 ≡ true)
    ↔ ((read 5 locked lock_key ≡ none) ⊎ (read 5 locked lock_key ≡ some "b"))
try_acquire_iff_example = (try_acquire_iff in_memory in_memory-laws 5 locked node_b (omega arith)).0

abbrev follower : ConfigSync
follower = record { cluster_state = cluster; node_id = "f"; local_config = [] }

abbrev mode_1 : Notification
mode_1 = record { key = "mode"; value = "slow"; version = 1; updated_by = "l" }

abbrev mode_2 : Notification
mode_2 = record { key = "mode"; value = "fast"; version = 2; updated_by = "l" }

-- An encoding that tells the two notifications apart.
abbrev json : Json
json = record {
  dumps = λ m. m.value;
  loads = λ t. if t == "slow" then some mode_1 else if t == "fast" then some mode_2 else none;
}

abbrev value_at : String → ℕ → String
value_at k zero = ""
value_at k (suc zero) = "slow"
value_at k (suc (suc n)) = "fast"

replay_converges_example :
    get_local (replay json follower (mode_2 ∷ mode_1 ∷ [])) "mode"
    ≡ get_local (replay json follower (mode_1 ∷ mode_1 ∷ mode_2 ∷ [])) "mode"
replay_converges_example =
    replay_converges json value_at follower (mode_2 ∷ mode_1 ∷ []) (mode_1 ∷ mode_1 ∷ mode_2 ∷ [])
      "mode" (refl, (refl, tt)) (refl, (refl, (refl, tt))) (refl, (refl, tt))
      (refl, (refl, (refl, tt))) (inr (inr (inl refl)), (inl refl, tt))
      (inr (inl refl), (inr (inl refl), (inl refl, tt)))

write_config_collision_example :
    (d : Dict String Cell) × (write_config in_memory json 0 1 quiet [] follower
        (str_append "version:" "mode")
        "x"
      ≡ some (d, set_local follower (str_append "version:" "mode") "x" 1, 1))
    × (write_config in_memory json 2 3 quiet d follower "mode" "fast" ≡ none)
unfolding read lookup count_marks
write_config_collision_example =
    write_config_collision in_memory in_memory-laws json 0 1 2 3 quiet quiet [] follower follower
      "mode" "x" "fast" 0 (omega arith) refl refl

-- Other tasks that leave the cluster state alone.
abbrev idle : ℕ → ClusterState → ClusterState
idle n s = s

abbrev plain : String → String → List String → String
plain firmware event ids = event

-- Redis takes every request but the fifth.
abbrev fifth_fails : ℕ → RequestEnd
fifth_fails n = if n == 4 then lost else fine

abbrev ota : Ota in_memory
ota = record {
  cluster = cluster;
  db = [];
  awaits = 0;
  answers = fifth_fails;
  replaced = λ n id. false;
}

wait_for_health_iff_example :
    (b : Bool) × ((wait_for_health in_memory 0 plain idle 5 2 ota "edge").1 ≡ some b)
    × ((b ≡ true) ↔ (
        (k : ℕ) × (k * 2 < 5)
        × (is_healthy (get_node (slept in_memory 0 plain idle k ota).cluster "edge") ≡ true)))
wait_for_health_iff_example =
    wait_for_health_iff in_memory 0 plain idle 5 2 ota "edge" (omega arith)
