-- ===== src/Coordination/ClusterState.antt =====
-- state/cluster_state.py. Times are microseconds; the clock is an argument. The lock makes each
-- method one step. A node object is shared between the dict and its readers, so a change to its
-- fields is a change of the stored entry.
pub mod Nodes
pub mod Leader
use mathlib.Core.Option
use g_io_t_edge_gateway.Prelude.{
  Bool, List, Option, String, [], false, if◌then◌else◌, keep, nat_eq, none, not, some, string_eq,
  true, ℕ, ◌&&◌, ◌+◌, ◌==◌, ◌∷◌,
}
use g_io_t_edge_gateway.Dict.{Dict, erase, insert, lookup, modify, values}

pub data NodeStatus : Type 0 where
  joining alive suspect dead leaving : NodeStatus

pub record ClusterNode : Type 0 where
  pub node_id : String
  pub node_address : String
  pub status : NodeStatus
  pub is_leader : Bool
  pub last_heartbeat : ℕ
  pub capabilities : List String
  pub metadata : Dict String String

pub record ClusterState : Type 0 where
  pub local_node_id : String
  pub nodes : Dict String ClusterNode
  pub cluster_version : ℕ
  pub config : Dict String String

unfoldable pub init : String → ClusterState
init id = record { local_node_id = id; nodes = []; cluster_version = 0; config = [] }

-- `status in (JOINING, SUSPECT)`.
abbrev pub is_unsettled : NodeStatus → Bool
is_unsettled joining = true
is_unsettled suspect = true
is_unsettled _ = false

-- `status in (DEAD, LEAVING)`.
abbrev pub is_final : NodeStatus → Bool
is_final dead = true
is_final leaving = true
is_final _ = false

abbrev pub is_alive : NodeStatus → Bool
is_alive alive = true
is_alive _ = false

unfoldable pub get_node : ClusterState → String → Option ClusterNode
get_node s id = lookup id s.nodes

unfoldable pub add_node : ClusterState → ClusterNode → ClusterState
add_node s n = record s {
  nodes = insert n.node_id n s.nodes;
  cluster_version = s.cluster_version + 1;
}

unfoldable pub remove_node : ClusterState → String → ClusterState
remove_node s id = elim (lookup id s.nodes) [
  | none ↦ s
  | some _ ↦ record s { nodes = erase id s.nodes; cluster_version = s.cluster_version + 1 }
]

-- A change of the fields of the node `id`, with and without a new cluster version.
abbrev pub change : ClusterState → String → (ClusterNode → ClusterNode) → ClusterState
change s id f = record s { nodes = modify id f s.nodes }

abbrev pub change_version : ClusterState → String → (ClusterNode → ClusterNode) → ClusterState
change_version s id f = record s {
  nodes = modify id f s.nodes;
  cluster_version = s.cluster_version + 1;
}

abbrev pub set_alive : ℕ → ClusterNode → ClusterNode
set_alive now n = record n { status = alive; last_heartbeat = now }

abbrev pub beat : ℕ → ClusterNode → ClusterNode
beat now n = record n {
  status = if is_unsettled n.status then alive else n.status;
  last_heartbeat = now;
}

unfoldable pub update_node_heartbeat : ℕ → ClusterState → String → ClusterState
update_node_heartbeat now s id = elim (lookup id s.nodes) [
  | none ↦ s
  | some _ ↦ change s id (beat now)
]

abbrev pub set_status : NodeStatus → ClusterNode → ClusterNode
set_status st n = record n { status = st }

abbrev pub set_dead : ClusterNode → ClusterNode
set_dead n = record n { status = dead; is_leader = false }

unfoldable pub mark_suspect : ClusterState → String → ClusterState
mark_suspect s id = elim (lookup id s.nodes) [
  | none ↦ s
  | some n ↦ if is_final n.status then s else change_version s id (set_status suspect)
]

unfoldable pub mark_dead : ClusterState → String → ClusterState
mark_dead s id = elim (lookup id s.nodes) [ none ↦ s | some _ ↦ change_version s id set_dead ]

unfoldable pub mark_alive : ℕ → ClusterState → String → ClusterState
mark_alive now s id = elim (lookup id s.nodes) [
  | none ↦ s
  | some _ ↦ change_version s id (set_alive now)
]

unfoldable pub mark_leaving : ClusterState → String → ClusterState
mark_leaving s id = elim (lookup id s.nodes) [
  | none ↦ s
  | some _ ↦ change_version s id (set_status leaving)
]

-- `exclude` is `None` or a node id.
abbrev pub is_excluded : Option String → ClusterNode → Bool
is_excluded none n = false
is_excluded (some id) n = n.node_id == id

unfoldable pub get_alive_peers : ClusterState → Option String → List ClusterNode
get_alive_peers s exclude =
    keep (λ n. is_alive n.status && not (is_excluded exclude n)) (values s.nodes)

unfoldable pub get_all_nodes : ClusterState → List ClusterNode
get_all_nodes s = values s.nodes

first_leader : List ClusterNode → Option ClusterNode
first_leader [] = none
first_leader (n ∷ ns) = if n.is_leader then some n else first_leader ns

unfoldable pub get_leader : ClusterState → Option ClusterNode
unfolding first_leader
get_leader s = first_leader (values s.nodes)

pub flag_leader : String → Dict String ClusterNode → Dict String ClusterNode
flag_leader id [] = []
flag_leader id ((k, n) ∷ m) = (k, record n { is_leader = n.node_id == id }) ∷ flag_leader id m

unfoldable pub set_leader : ClusterState → String → ClusterState
unfolding flag_leader
set_leader s id = record s {
  nodes = flag_leader id s.nodes;
  cluster_version = s.cluster_version + 1;
}

unfoldable pub set_config : ClusterState → String → String → ClusterState
set_config s key value = record s { config = insert key value s.config }

unfoldable pub get_config : ClusterState → String → Option String
get_config s key = lookup key s.config
