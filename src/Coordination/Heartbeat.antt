-- ===== src/Coordination/Heartbeat.antt =====
-- services/heartbeat.py. `total_seconds()` and the timeout are numbers of microseconds; a clock
-- that went back gives 0 elapsed, which passes no timeout either way.
pub mod Verdict
use g_io_t_edge_gateway.Prelude.{
  Bool, List, String, [], false, if◌then◌else◌, ltb, nat_eq, string_eq, true, ℕ, ◌*◌, ◌-◌, ◌==◌,
  ◌∷◌,
}
use g_io_t_edge_gateway.Coordination.ClusterState.{
  ClusterNode, ClusterState, NodeStatus, dead, get_all_nodes, is_final, mark_dead, mark_suspect,
  suspect,
}

pub record HeartbeatService : Type 0 where
  pub node_id : String
  pub timeout : ℕ

abbrev pub is_dead : NodeStatus → Bool
is_dead dead = true
is_dead _ = false

abbrev pub is_suspect : NodeStatus → Bool
is_suspect suspect = true
is_suspect _ = false

-- The body of the loop of `_check_timeouts`.
check_node : HeartbeatService → ℕ → ClusterState → ClusterNode → ClusterState
check_node h now s node =
    let elapsed = now - node.last_heartbeat in
    if node.node_id == h.node_id
    then s
    else if is_final node.status
    then s
    else if ltb (h.timeout * 2) elapsed
    then (if is_dead node.status then s else mark_dead s node.node_id)
    else if ltb h.timeout elapsed
    then (if is_suspect node.status then s else mark_suspect s node.node_id)
    else s

check_all : HeartbeatService → ℕ → ClusterState → List ClusterNode → ClusterState
unfolding check_node
check_all h now s [] = s
check_all h now s (n ∷ ns) = check_all h now (check_node h now s n) ns

unfoldable pub check_timeouts : HeartbeatService → ℕ → ClusterState → ClusterState
unfolding check_all
check_timeouts h now s = check_all h now s (get_all_nodes s)
