-- ===== src/Coordination/Tests/Cluster.antt =====
-- The theorems on the cluster state, the failure detector and gossip at concrete inputs.
use g_io_t_edge_gateway.Prelude.{
  ==_false, List, String, [], arith, false, nat_eq, refl, some, string_eq, ℕ, ◌∷◌, ◌≡◌, ◌≤◌,
}
use g_io_t_edge_gateway.Dict.{get_or, insert, lookup, modify}
use g_io_t_edge_gateway.Coordination.ClusterState.{
  ClusterNode, ClusterState, dead, get_all_nodes, get_node, mark_suspect, set_status, suspect,
}
use g_io_t_edge_gateway.Coordination.ClusterState.Nodes.{Call, Indexed, apply, version_guards_nodes}
use g_io_t_edge_gateway.Coordination.Heartbeat.{HeartbeatService, check_timeouts}
use g_io_t_edge_gateway.Coordination.Gossip.{GossipProtocol}
use g_io_t_edge_gateway.Coordination.ConfigSync.{ConfigSync, get_local, set_local}
use g_io_t_edge_gateway.Coordination.Servicer.{ConfigEntry, fresh_node, sync_config, sync_entry}
use g_io_t_edge_gateway.Coordination.Servicer.Membership.{Event, World, run, step}
use g_io_t_edge_gateway.Coordination.Servicer.Failure.{HasStatus, dead_stays, silent_is_dead}

abbrev pub edge : ClusterNode
edge = fresh_node 0 "edge" "10.0.0.2:50052" []

abbrev pub lost : ClusterNode
lost = record edge { node_id = "lost"; status = dead }

abbrev pub cluster : ClusterState
cluster = record {
  local_node_id = "self";
  nodes = ("edge", edge) ∷ ("lost", lost) ∷ [];
  cluster_version = 2;
  config = [];
}

cluster-Indexed : Indexed cluster.nodes
unfolding lookup
cluster-Indexed = (refl, refl, (refl, refl, tt))

abbrev detector : HeartbeatService
detector = record { node_id = "self"; timeout = 10 }

abbrev unbound : GossipProtocol
unbound = record { node_id = "self"; fanout = 3; has_redis = false; sequence = 0 }

abbrev world : World
world = record { heart = detector; gossip = unbound; cluster = cluster }

abbrev all_of : List ClusterNode → ℕ → List ClusterNode
all_of ns k = ns

abbrev events : List (ℕ × Event)
events = (5, Event.beats "lost" "") ∷ (12, Event.scans) ∷ []

dead_stays_example : HasStatus (run world events) "lost" dead
dead_stays_example =
    dead_stays world events "lost" cluster-Indexed (refl, (refl, tt))
      (lost, unfold get_node lookup in refl, refl)

silent_is_dead_example : HasStatus (step (run world events) (21, Event.scans)) "edge" dead
silent_is_dead_example =
    silent_is_dead world events 21 "edge" edge cluster-Indexed (unfold get_node lookup in refl) refl
      (==_false {A = String} "edge" "self" refl) (refl, (refl, tt)) (omega arith)

edge_suspected :
    get_node (check_timeouts detector 15 cluster) "edge" ≡ some (set_status suspect edge)
unfolding check_timeouts mark_suspect get_node lookup modify get_all_nodes
edge_suspected = refl

version_guards_nodes_example :
    (cluster.cluster_version ≤ (apply 7 cluster (Call.kills "edge")).cluster_version)
version_guards_nodes_example = (version_guards_nodes 7 cluster (Call.kills "edge")).0

abbrev synced : ConfigSync
synced = record {
  cluster_state = cluster;
  node_id = "self";
  local_config = ("rate", ("5", 2)) ∷ [];
}

abbrev entries : List ConfigEntry
entries =
    record { key = "rate"; value = "4"; version = 1 }
    ∷ record { key = "mode"; value = "fast"; version = 3 }
    ∷ []

sync_rate : (sync_config synced entries).1 ≡ record { key = "rate"; value = "5"; version = 2 } ∷ []
unfolding sync_config sync_entry get_local get_or set_local insert
sync_rate = refl
