-- ===== src/Coordination/Heartbeat/Verdict.antt =====
-- heartbeat.py: what one scan of `_check_timeouts` decides for each node.
use mathlib.Core.Option
use g_io_t_edge_gateway.Prelude.{
  List, Option, String, [], arith, if◌then◌else◌, ltb, nat_eq, none, refl, some, string_eq, ℕ, ◌*◌,
  ◌-◌, ◌==◌, ◌||◌, ◌∷◌, ◌≡◌,
}
use g_io_t_edge_gateway.Dict.{Dict, lookup, values}
use g_io_t_edge_gateway.Dict.Laws.{lookup-modify}
use g_io_t_edge_gateway.Coordination.ClusterState.{
  ClusterNode, ClusterState, get_all_nodes, get_node, is_final, mark_dead, mark_suspect, set_dead,
  set_status, suspect,
}
use g_io_t_edge_gateway.Coordination.ClusterState.Nodes.{Indexed, modify-Indexed}
use g_io_t_edge_gateway.Coordination.Heartbeat.{
  HeartbeatService, check_all, check_node, check_timeouts,
}

-- The verdict on one node, from the node alone.
unfoldable pub verdict : HeartbeatService → ℕ → ClusterNode → ClusterNode
verdict h now n =
    let silent = now - n.last_heartbeat in
    if n.node_id == h.node_id || is_final n.status
    then n
    else if ltb (2 * h.timeout) silent
    then set_dead n
    else if ltb h.timeout silent
    then set_status suspect n
    else n

check_node-lookup :
    (h : HeartbeatService) (now : ℕ) (s : ClusterState) (n : ClusterNode) (k : String)
    → lookup n.node_id s.nodes ≡ some n
    → lookup k (check_node h now s n).nodes
      ≡ (if n.node_id == k then some (verdict h now n) else lookup k s.nodes)
unfolding check_node verdict mark_dead mark_suspect
check_node-lookup h now s n k found = ground (
  arith,
  string_eq.beq_iff n.node_id k,
  lookup-modify n.node_id k set_dead s.nodes,
  lookup-modify n.node_id k (set_status suspect) s.nodes,
)

-- Every entry of the part of the dict that the loop has still to visit is the stored one.
abbrev Live : ClusterState → Dict String ClusterNode → Type 0
Live s m = (k : String) (n : ClusterNode) → lookup k m ≡ some n → lookup k s.nodes ≡ some n

Live-head :
    (s : ClusterState) (k : String) (n : ClusterNode) (m : Dict String ClusterNode)
    → Live s ((k, n) ∷ m)
    → lookup k s.nodes ≡ some n
unfolding lookup
Live-head s k n m live = live k n (ground (arith, string_eq.beq_iff k k))

Live-check_node :
    (h : HeartbeatService) (now : ℕ) (s : ClusterState) (k : String) (n : ClusterNode)
    (m : Dict String ClusterNode)
    → Indexed ((k, n) ∷ m)
    → Live s ((k, n) ∷ m)
    → Live (check_node h now s n) m
unfolding lookup
Live-check_node h now s k n m ix live j x e = ground (
  arith,
  check_node-lookup h now s n j (simp ix.0 (Live-head s k n m live)),
  live j x,
  string_eq.beq_iff k j,
  string_eq.beq_iff n.node_id j,
)

-- What a reader finds under `k` after the loop has visited the entries of `m`.
abbrev found : HeartbeatService → ℕ → Option ClusterNode → Option ClusterNode → Option ClusterNode
found h now none o = o
found h now (some n) o = some (verdict h now n)

lookup-check_all :
    (h : HeartbeatService) (now : ℕ) (s : ClusterState) (m : Dict String ClusterNode) (k : String)
    → Indexed m
    → Live s m
    → lookup k (check_all h now s (values m)).nodes ≡ found h now (lookup k m) (lookup k s.nodes)
unfolding check_all lookup
lookup-check_all h now s [] k ix live = refl
lookup-check_all h now s ((j, n) ∷ m) k ix live = ground (
  arith,
  lookup-check_all h now (check_node h now s n) m k ix.2 (Live-check_node h now s j n m ix live),
  check_node-lookup h now s n k (simp ix.0 (Live-head s j n m live)),
  string_eq.beq_iff j k,
  string_eq.beq_iff n.node_id k,
)

-- One scan leaves the local node and the nodes that are DEAD or LEAVING as they are, makes a node
-- DEAD (and takes its leader flag) after a silence over twice the timeout, SUSPECT after one over
-- the timeout, and changes nothing else, whatever the order of the nodes.
pub check_timeouts-verdict :
    (h : HeartbeatService) (now : ℕ) (s : ClusterState) (k : String)
    → Indexed s.nodes
    → get_node (check_timeouts h now s) k ≡ Option.map (verdict h now) (get_node s k)
unfolding check_timeouts get_all_nodes get_node
check_timeouts-verdict h now s k ix =
    ground (arith, lookup-check_all h now s s.nodes k ix (λ j n e. e))

check_all-Indexed :
    (h : HeartbeatService) (now : ℕ) (s : ClusterState) (ns : List ClusterNode)
    → Indexed s.nodes
    → Indexed (check_all h now s ns).nodes
unfolding check_all
check_all-Indexed h now s [] ix = ix
check_all-Indexed h now s (n ∷ ns) ix =
    check_all-Indexed h now (check_node h now s n) ns (ground (arith, one))
  where
    one : Indexed (check_node h now s n).nodes
    one =
        unfold check_node mark_dead mark_suspect in
        ground (
          arith,
          modify-Indexed n.node_id set_dead s.nodes (λ x. refl) ix,
          modify-Indexed n.node_id (set_status suspect) s.nodes (λ x. refl) ix,
        )

pub check_timeouts-Indexed :
    (h : HeartbeatService) (now : ℕ) (s : ClusterState)
    → Indexed s.nodes
    → Indexed (check_timeouts h now s).nodes
unfolding check_timeouts
check_timeouts-Indexed h now s ix = check_all-Indexed h now s (get_all_nodes s) ix
