-- ===== src/Coordination/Gossip.antt =====
-- services/gossip.py. `random.sample` is an argument, the list of peers it picked; so is the fate of
-- each publish. Redis is bound or not (`_redis is None`).
pub mod Rounds
use g_io_t_edge_gateway.Prelude.{
  Bool, List, Option, String, [], false, if◌then◌else◌, is_empty, length, map, min, nat_eq, none,
  some, string_eq, true, ℕ, ◌+◌, ◌==◌, ◌∷◌,
}
use g_io_t_edge_gateway.Coordination.ClusterState.{
  ClusterNode, ClusterState, get_alive_peers, mark_suspect, update_node_heartbeat,
}

pub record GossipProtocol : Type 0 where
  pub node_id : String
  pub fanout : ℕ
  pub has_redis : Bool
  pub sequence : ℕ

unfoldable pub set_redis : GossipProtocol → GossipProtocol
set_redis g = record g { has_redis = true }

-- The new state and whether the publish went through; `published` is false where it raises.
unfoldable pub ping_peer : GossipProtocol → Bool → GossipProtocol × Bool
ping_peer g published =
    if g.has_redis then (record g { sequence = g.sequence + 1 }, published) else (g, false)

-- The loop over the targets; each comes with the fate of the publish to it.
probe : GossipProtocol → ClusterState → List (ClusterNode × Bool) → GossipProtocol × ClusterState
unfolding ping_peer
probe g s [] = (g, s)
probe g s ((peer, published) ∷ targets) =
    let (g', success) = ping_peer g published in
    probe g' (if success then s else mark_suspect s peer.node_id) targets

-- `sample peers k` is what `random.sample` returns, `fate` what becomes of the publish to a peer.
unfoldable pub gossip_round :
    (List ClusterNode → ℕ → List ClusterNode)
    → (ClusterNode → Bool)
    → GossipProtocol
    → ClusterState
    → GossipProtocol × ClusterState
unfolding probe
gossip_round sample fate g s =
    let peers = get_alive_peers s (some g.node_id) in
    if is_empty peers
    then (g, s)
    else probe g s (map (λ n. (n, fate n)) (sample peers (min g.fanout (length peers))))

unfoldable pub handle_ping : ℕ → ClusterState → String → ClusterState
handle_ping now s from_node_id = update_node_heartbeat now s from_node_id

-- A message of the channel, as decoded: its target, and its sender if the key is there.
pub record Ping : Type 0 where
  pub target_node_id : String
  pub from_node_id : Option String

-- One turn of `_listen_for_pings`; `none` is a payload that is no JSON.
unfoldable pub on_message : GossipProtocol → ℕ → ClusterState → Option Ping → ClusterState
unfolding handle_ping
on_message g now s none = s
on_message g now s (some p) =
    if p.target_node_id == g.node_id
    then elim p.from_node_id [ none ↦ s | some from ↦ handle_ping now s from ]
    else s
