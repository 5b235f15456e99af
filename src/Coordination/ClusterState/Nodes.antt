-- ===== src/Coordination/ClusterState/Nodes.antt =====
-- cluster_state.py: what each method does to the node that a reader finds, and to the version.
use mathlib.Core.Option
use g_io_t_edge_gateway.Prelude.{
  Bool, Option, String, [], arith, false, if◌then◌else◌, nat_eq, none, refl, some, string_eq, true,
  ℕ, ◌+◌, ◌==◌, ◌∷◌, ◌≡◌, ◌≤◌,
}
use g_io_t_edge_gateway.Dict.{Dict, erase, insert, lookup, modify}
use g_io_t_edge_gateway.Dict.Laws.{lookup-erase, lookup-insert, lookup-modify}
use g_io_t_edge_gateway.Coordination.ClusterState.{
  ClusterNode, ClusterState, add_node, beat, flag_leader, get_node, is_final, is_unsettled, leaving,
  mark_alive, mark_dead, mark_leaving, mark_suspect, remove_node, set_alive, set_config, set_dead,
  set_leader, set_status, suspect, update_node_heartbeat,
}

-- The dict holds each id once, under the id that the node object itself carries.
abbrev pub Indexed : Dict String ClusterNode → Type 0
Indexed [] = Unit
Indexed ((k, n) ∷ m) = (n.node_id ≡ k) × (lookup k m ≡ none) × Indexed m

insert-Indexed :
    (n : ClusterNode) (m : Dict String ClusterNode) → Indexed m → Indexed (insert n.node_id n m)
unfolding insert lookup
insert-Indexed n [] h = (refl, refl, tt)
insert-Indexed n ((k, x) ∷ m) h = ground (
  arith,
  string_eq.beq_iff k n.node_id,
  string_eq.beq_iff n.node_id k,
  lookup-insert n.node_id k n m,
  insert-Indexed n m h.2,
)

erase-Indexed : (id : String) (m : Dict String ClusterNode) → Indexed m → Indexed (erase id m)
unfolding erase lookup
erase-Indexed id [] h = tt
erase-Indexed id ((k, x) ∷ m) h = ground (arith, lookup-erase id k m, erase-Indexed id m h.2)

pub modify-Indexed :
    (id : String) (f : ClusterNode → ClusterNode) (m : Dict String ClusterNode)
    → ((n : ClusterNode) → (f n).node_id ≡ n.node_id)
    → Indexed m
    → Indexed (modify id f m)
unfolding modify lookup
modify-Indexed id f [] same h = tt
modify-Indexed id f ((k, x) ∷ m) same h =
    ground (arith, same x, lookup-modify id k f m, modify-Indexed id f m same h.2)

-- A node is found under the id that it carries.
pub node_id-lookup :
    (k : String) (m : Dict String ClusterNode) (n : ClusterNode)
    → Indexed m
    → lookup k m ≡ some n
    → n.node_id ≡ k
unfolding lookup
node_id-lookup k [] n ix e = cc
node_id-lookup k ((j, x) ∷ m) n ix e =
    ground (arith, node_id-lookup k m n ix.2, string_eq.beq_iff j k)

abbrev pub flagged : String → ClusterNode → ClusterNode
flagged id n = record n { is_leader = n.node_id == id }

pub lookup-flag_leader :
    (id k : String) (m : Dict String ClusterNode)
    → lookup k (flag_leader id m) ≡ Option.map (flagged id) (lookup k m)
unfolding flag_leader lookup
lookup-flag_leader id k [] = refl
lookup-flag_leader id k ((j, n) ∷ m) = ground (arith, lookup-flag_leader id k m)

flag_leader-Indexed :
    (id : String) (m : Dict String ClusterNode) → Indexed m → Indexed (flag_leader id m)
unfolding flag_leader
flag_leader-Indexed id [] h = tt
flag_leader-Indexed id ((k, x) ∷ m) h =
    (h.0, ground (arith, lookup-flag_leader id k m), flag_leader-Indexed id m h.2)

-- The methods that change the state, as one type.
pub data Call : Type 0 where
  adds : ClusterNode → Call
  removes beats suspects kills revives leaves leads : String → Call
  configures : String → String → Call

unfoldable pub apply : ℕ → ClusterState → Call → ClusterState
apply now s (adds n) = add_node s n
apply now s (removes id) = remove_node s id
apply now s (beats id) = update_node_heartbeat now s id
apply now s (suspects id) = mark_suspect s id
apply now s (kills id) = mark_dead s id
apply now s (revives id) = mark_alive now s id
apply now s (leaves id) = mark_leaving s id
apply now s (leads id) = set_leader s id
apply now s (configures key value) = set_config s key value

-- Every method keeps the dict of nodes indexed by the ids that the nodes carry, each once.
pub apply-Indexed :
    (now : ℕ) (s : ClusterState) (c : Call) → Indexed s.nodes → Indexed (apply now s c).nodes
unfolding apply add_node remove_node update_node_heartbeat mark_suspect mark_dead mark_alive
    mark_leaving set_leader set_config
apply-Indexed now s (adds n) h = insert-Indexed n s.nodes h
apply-Indexed now s (removes id) h = ground (arith, erase-Indexed id s.nodes h)
apply-Indexed now s (beats id) h =
    ground (arith, modify-Indexed id (beat now) s.nodes (λ n. refl) h)
apply-Indexed now s (suspects id) h =
    ground (arith, modify-Indexed id (set_status suspect) s.nodes (λ n. refl) h)
apply-Indexed now s (kills id) h = ground (arith, modify-Indexed id set_dead s.nodes (λ n. refl) h)
apply-Indexed now s (revives id) h =
    ground (arith, modify-Indexed id (set_alive now) s.nodes (λ n. refl) h)
apply-Indexed now s (leaves id) h =
    ground (arith, modify-Indexed id (set_status leaving) s.nodes (λ n. refl) h)
apply-Indexed now s (leads id) h = flag_leader-Indexed id s.nodes h
apply-Indexed now s (configures key value) h = h

-- What the call does to the node stored under `k`: an independent table.
pub expected : ℕ → Call → String → Option ClusterNode → Option ClusterNode
expected now (adds n) k o = if n.node_id == k then some n else o
expected now (removes id) k o = if id == k then none else o
expected now (beats id) k o = if id == k then Option.map (beat now) o else o
expected now (suspects id) k o =
    if id == k then Option.map (λ n. if is_final n.status then n else set_status suspect n) o else o
expected now (kills id) k o = if id == k then Option.map set_dead o else o
expected now (revives id) k o = if id == k then Option.map (set_alive now) o else o
expected now (leaves id) k o = if id == k then Option.map (set_status leaving) o else o
expected now (leads id) k o = Option.map (flagged id) o
expected now (configures key value) k o = o

-- After any call a reader finds under every id what the table of effects says: the node that the
-- call names changed as told, all others as they were.
pub lookup-apply :
    (now : ℕ) (s : ClusterState) (c : Call) (k : String)
    → get_node (apply now s c) k ≡ expected now c k (get_node s k)
unfolding apply add_node remove_node update_node_heartbeat mark_suspect mark_dead mark_alive
    mark_leaving set_leader set_config get_node expected
lookup-apply now s (adds n) k = lookup-insert n.node_id k n s.nodes
lookup-apply now s (removes id) k =
    ground (arith, lookup-erase id k s.nodes, string_eq.beq_iff id k)
lookup-apply now s (beats id) k =
    ground (arith, lookup-modify id k (beat now) s.nodes, string_eq.beq_iff id k)
lookup-apply now s (suspects id) k =
    ground (arith, lookup-modify id k (set_status suspect) s.nodes, string_eq.beq_iff id k)
lookup-apply now s (kills id) k =
    ground (arith, lookup-modify id k set_dead s.nodes, string_eq.beq_iff id k)
lookup-apply now s (revives id) k =
    ground (arith, lookup-modify id k (set_alive now) s.nodes, string_eq.beq_iff id k)
lookup-apply now s (leaves id) k =
    ground (arith, lookup-modify id k (set_status leaving) s.nodes, string_eq.beq_iff id k)
lookup-apply now s (leads id) k = lookup-flag_leader id k s.nodes
lookup-apply now s (configures key value) k = refl

abbrev is_beat : Call → Bool
is_beat (beats id) = true
is_beat _ = false

-- No call lowers the cluster version, none raises it by more than one, and a call other than a
-- heartbeat that leaves the version as it was leaves the nodes as they were.
pub version_guards_nodes :
    (now : ℕ) (s : ClusterState) (c : Call)
    → let t = apply now s c in
      (s.cluster_version ≤ t.cluster_version)
      × (t.cluster_version ≤ s.cluster_version + 1)
      × (is_beat c ≡ false → t.cluster_version ≡ s.cluster_version → t.nodes ≡ s.nodes)
unfolding apply add_node remove_node update_node_heartbeat mark_suspect mark_dead mark_alive
    mark_leaving set_leader set_config
version_guards_nodes now s (adds n) = ground arith
version_guards_nodes now s _ = ground arith

-- The exception: a heartbeat of a suspected or joining node makes it alive under the same version.
pub beat_unversioned :
    (now : ℕ) (s : ClusterState) (id : String) (n : ClusterNode)
    → get_node s id ≡ some n
    → is_unsettled n.status ≡ true
    → ((update_node_heartbeat now s id).cluster_version ≡ s.cluster_version)
      × (get_node (update_node_heartbeat now s id) id ≡ some (set_alive now n))
unfolding update_node_heartbeat get_node
beat_unversioned now s id n found h =
    ground (arith, lookup-modify id id (beat now) s.nodes, string_eq.beq_iff id id)
