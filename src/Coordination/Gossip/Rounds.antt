-- ===== src/Coordination/Gossip/Rounds.antt =====
-- gossip.py: what a round does to the peers.
use mathlib.Core.Option
use g_io_t_edge_gateway.Prelude.{
  All, Any, Bool, List, String, [], arith, false, if◌then◌else◌, inl, inr, is_empty, keep, length,
  map, min, nat_eq, not, refl, some, string_eq, true, ℕ, ◌&&◌, ◌==◌, ◌||◌, ◌∷◌, ◌≡◌, ◌⊎◌,
}
use g_io_t_edge_gateway.Dict.{values}
use g_io_t_edge_gateway.Dict.Laws.{lookup-modify}
use g_io_t_edge_gateway.Coordination.ClusterState.{
  ClusterNode, ClusterState, get_alive_peers, get_node, is_alive, is_excluded, is_final,
  mark_suspect, set_status, suspect,
}
use g_io_t_edge_gateway.Coordination.ClusterState.Nodes.{Indexed, modify-Indexed}
use g_io_t_edge_gateway.Coordination.Gossip.{GossipProtocol, gossip_round, ping_peer, probe}

-- Whether a probe of the node `id` among the targets failed.
missed : Bool → String → List (ClusterNode × Bool) → Bool
missed redis id [] = false
missed redis id ((peer, published) ∷ targets) =
    (peer.node_id == id && not (redis && published)) || missed redis id targets

abbrev pub suspected : ClusterNode → ClusterNode
suspected n = if is_final n.status then n else set_status suspect n

lookup-mark_suspect :
    (s : ClusterState) (id k : String)
    → get_node (mark_suspect s id) k
      ≡ (if id == k then Option.map suspected (get_node s k) else get_node s k)
unfolding mark_suspect get_node
lookup-mark_suspect s id k =
    ground (arith, lookup-modify id k (set_status suspect) s.nodes, string_eq.beq_iff id k)

suspected_twice : (n : ClusterNode) → suspected (suspected n) ≡ suspected n
suspected_twice n = ground arith

probe_lem :
    (g : GossipProtocol) (s : ClusterState) (ts : List (ClusterNode × Bool)) (k : String)
    → get_node (probe g s ts).1 k
      ≡ (if missed g.has_redis k ts then Option.map suspected (get_node s k) else get_node s k)
unfolding probe missed
probe_lem g s [] k = refl
probe_lem g s ((peer, published) ∷ ts) k = ground (
  arith,
  probe_lem (ping_peer g published).0
      (if (ping_peer g published).1 then s else mark_suspect s peer.node_id) ts k,
  lookup-mark_suspect s peer.node_id k,
)

missed_none :
    (redis : Bool) (id : String) (f : ClusterNode → Bool) (ns : List ClusterNode)
    → All (λ n. (n.node_id == id) ≡ false) ns
    → missed redis id (map (λ n. (n, f n)) ns) ≡ false
unfolding missed
missed_none redis id f [] h = refl
missed_none redis id f (n ∷ ns) h = ground (arith, missed_none redis id f ns h.1)

missed-All_fine :
    (id : String) (f : ClusterNode → Bool) (ns : List ClusterNode)
    → All (λ n. f n ≡ true) ns
    → missed true id (map (λ n. (n, f n)) ns) ≡ false
unfolding missed
missed-All_fine id f [] h = refl
missed-All_fine id f (n ∷ ns) h = ground (arith, missed-All_fine id f ns h.1)

missed_some :
    (redis : Bool) (id : String) (f : ClusterNode → Bool) (ns : List ClusterNode)
    → Any (λ n. (n.node_id ≡ id) × ((redis && f n) ≡ false)) ns
    → missed redis id (map (λ n. (n, f n)) ns) ≡ true
unfolding missed
missed_some redis id f [] h = absurd h
missed_some redis id f (n ∷ ns) (inl h) = ground (arith, string_eq.beq_iff n.node_id id)
missed_some redis id f (n ∷ ns) (inr h) = ground (arith, missed_some redis id f ns h)

peers_foreign :
    (id : String) (ns : List ClusterNode)
    → All
        (λ n. (n.node_id == id) ≡ false)
        (keep (λ n. is_alive n.status && not (is_excluded (some id) n)) ns)
unfolding keep
peers_foreign id [] = tt
peers_foreign id (n ∷ ns) = ground (arith, peers_foreign id ns)

-- What is assumed of `random.sample`: it picks from the population.
abbrev Picks : (List ClusterNode → ℕ → List ClusterNode) → Type 1
Picks sample =
    (P : ClusterNode → Type 0) (ns : List ClusterNode) (k : ℕ) → All P ns → All P (sample ns k)

probe-Indexed :
    (g : GossipProtocol) (s : ClusterState) (ts : List (ClusterNode × Bool))
    → Indexed s.nodes
    → Indexed (probe g s ts).1.nodes
unfolding probe mark_suspect
probe-Indexed g s [] ix = ix
probe-Indexed g s ((peer, published) ∷ ts) ix =
    probe-Indexed (ping_peer g published).0
      (if (ping_peer g published).1 then s else mark_suspect s peer.node_id) ts
      (ground (arith, modify-Indexed peer.node_id (set_status suspect) s.nodes (λ n. refl) ix))

module _ (sample : List ClusterNode → ℕ → List ClusterNode) (fate : ClusterNode → Bool) where
  -- The peers that a round picks.
  abbrev pub targets : GossipProtocol → ClusterState → List ClusterNode
  targets g s =
      sample (get_alive_peers s (some g.node_id))
        (min g.fanout (length (get_alive_peers s (some g.node_id))))

  -- A round never changes the local node, whatever the sample and the fates of the pings.
  pub gossip_round-local :
      (g : GossipProtocol) (s : ClusterState)
      → Picks sample
      → get_node (gossip_round sample fate g s).1 g.node_id ≡ get_node s g.node_id
  unfolding gossip_round get_alive_peers
  gossip_round-local g s picks = ground (
    arith,
    probe_lem g s (map (λ n. (n, fate n)) (targets g s)) g.node_id,
    missed_none g.has_redis g.node_id fate (targets g s) (
        picks (λ n. (n.node_id == g.node_id) ≡ false) _ _
          (peers_foreign g.node_id (values s.nodes))),
  )

  -- A round suspects every picked peer to which the publish failed or for which no Redis client is
  -- bound, unless that peer is DEAD or LEAVING by then.
  pub gossip_round_suspects :
      (g : GossipProtocol) (s : ClusterState) (id : String)
      → is_empty (get_alive_peers s (some g.node_id)) ≡ false
      → Any (λ n. (n.node_id ≡ id) × ((g.has_redis && fate n) ≡ false)) (targets g s)
      → get_node (gossip_round sample fate g s).1 id ≡ Option.map suspected (get_node s id)
  unfolding gossip_round
  gossip_round_suspects g s id some_peers failed = ground (
    arith,
    probe_lem g s (map (λ n. (n, fate n)) (targets g s)) id,
    missed_some g.has_redis id fate (targets g s) failed,
  )

  -- Where a client is bound and every publish goes through, a round changes no node.
  pub gossip_round_quiet :
      (g : GossipProtocol) (s : ClusterState) (id : String)
      → g.has_redis ≡ true
      → All (λ n. fate n ≡ true) (targets g s)
      → get_node (gossip_round sample fate g s).1 id ≡ get_node s id
  unfolding gossip_round
  gossip_round_quiet g s id bound fine = ground (
    arith,
    probe_lem g s (map (λ n. (n, fate n)) (targets g s)) id,
    missed-All_fine id fate (targets g s) fine,
  )

  -- A round leaves a node that is DEAD or LEAVING as it is, and of any other changes at most the
  -- status.
  pub gossip_round-cases :
      (g : GossipProtocol) (s : ClusterState) (id : String)
      → (get_node (gossip_round sample fate g s).1 id ≡ get_node s id)
        ⊎ (get_node (gossip_round sample fate g s).1 id ≡ Option.map suspected (get_node s id))
  unfolding gossip_round
  gossip_round-cases g s id =
      ground (arith, probe_lem g s (map (λ n. (n, fate n)) (targets g s)) id)

  pub gossip_round-Indexed :
      (g : GossipProtocol) (s : ClusterState)
      → Indexed s.nodes
      → Indexed (gossip_round sample fate g s).1.nodes
  unfolding gossip_round
  gossip_round-Indexed g s ix =
      ground (arith, probe-Indexed g s (map (λ n. (n, fate n)) (targets g s)) ix)
