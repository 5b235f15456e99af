-- ===== src/Coordination/Servicer/Membership.antt =====
-- The membership of the cluster over time: heartbeat.py, gossip.py and coordination_servicer.py
-- changing one cluster state, in any order.
use g_io_t_edge_gateway.Prelude.{
  Bool, List, Option, String, [], arith, nat_eq, refl, string_eq, ℕ, ◌∷◌, ◌≡◌,
}
use g_io_t_edge_gateway.Coordination.ClusterState.{
  ClusterNode, ClusterState, get_node, update_node_heartbeat,
}
use g_io_t_edge_gateway.Coordination.ClusterState.Nodes.{Call, Indexed, apply, apply-Indexed}
use g_io_t_edge_gateway.Coordination.Heartbeat.{HeartbeatService, check_timeouts}
use g_io_t_edge_gateway.Coordination.Heartbeat.Verdict.{check_timeouts-Indexed}
use g_io_t_edge_gateway.Coordination.Gossip.{GossipProtocol, gossip_round, handle_ping}
use g_io_t_edge_gateway.Coordination.Gossip.Rounds.{gossip_round-Indexed}
use g_io_t_edge_gateway.Coordination.Servicer.{fresh_node, join_cluster, leave_cluster, upsert}

-- What can happen to a node of the cluster: the RPCs, a ping received, a scan, a gossip round.
pub data Event : Type 0 where
  beats : String → String → Event
  joins : String → String → List String → Event
  leaves pings : String → Event
  scans : Event
  gossips : (List ClusterNode → ℕ → List ClusterNode) → (ClusterNode → Bool) → Event

pub record World : Type 0 where
  pub heart : HeartbeatService
  pub gossip : GossipProtocol
  pub cluster : ClusterState

unfoldable pub step : World → ℕ × Event → World
step w (now, beats id address) = record w { cluster = upsert now w.cluster id address }
step w (now, joins id address caps) = record w {
  cluster = (join_cluster now w.cluster id address caps).0;
}
step w (now, leaves id) = record w { cluster = (leave_cluster w.cluster id).0 }
step w (now, pings id) = record w { cluster = handle_ping now w.cluster id }
step w (now, scans) = record w { cluster = check_timeouts w.heart now w.cluster }
step w (now, gossips sample fate) =
    let (g, s) = gossip_round sample fate w.gossip w.cluster in record w { gossip = g; cluster = s }

unfoldable pub run : World → List (ℕ × Event) → World
run w [] = w
run w (e ∷ es) = run (step w e) es

abbrev pub node_of : World → String → Option ClusterNode
node_of w id = get_node w.cluster id

abbrev pub WellFormed : World → Type 0
WellFormed w = Indexed w.cluster.nodes

pub step-WellFormed : (w : World) (e : ℕ × Event) → WellFormed w → WellFormed (step w e)
unfolding apply step upsert join_cluster leave_cluster handle_ping
step-WellFormed w (now, beats id address) ix = ground (
  arith,
  apply-Indexed now w.cluster (Call.adds (fresh_node now id address [])) ix,
  apply-Indexed now w.cluster (Call.beats id) ix,
  apply-Indexed now (update_node_heartbeat now w.cluster id) (Call.revives id)
      (apply-Indexed now w.cluster (Call.beats id) ix),
)
step-WellFormed w (now, joins id address caps) ix =
    apply-Indexed now w.cluster (Call.adds (fresh_node now id address caps)) ix
step-WellFormed w (now, leaves id) ix =
    ground (arith, apply-Indexed now w.cluster (Call.leaves id) ix)
step-WellFormed w (now, pings id) ix = apply-Indexed now w.cluster (Call.beats id) ix
step-WellFormed w (now, scans) ix = check_timeouts-Indexed w.heart now w.cluster ix
step-WellFormed w (now, gossips sample fate) ix =
    gossip_round-Indexed sample fate w.gossip w.cluster ix

-- Every dict of nodes that the events reach holds each id once, under the node's own id.
pub run-WellFormed : (w : World) (es : List (ℕ × Event)) → WellFormed w → WellFormed (run w es)
unfolding run
run-WellFormed w [] ix = ix
run-WellFormed w (e ∷ es) ix = run-WellFormed (step w e) es (step-WellFormed w e ix)

pub step-heart : (w : World) (e : ℕ × Event) → (step w e).heart ≡ w.heart
unfolding step
step-heart w (now, beats id address) = refl
step-heart w (now, _) = refl
