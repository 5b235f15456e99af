-- ===== src/Coordination/Servicer.antt =====
-- grpc_server/coordination_servicer.py. A request is the record of the fields that the handler
-- reads, an absent one at the default of its `getattr`; the answers are the returned dicts. The
-- cluster state is the one that the ConfigSync shares.
pub mod Handlers
pub mod Membership
pub mod Failure
use mathlib.Core.Option
use g_io_t_edge_gateway.Prelude.{
  Bool, List, Option, String, [], false, if◌then◌else◌, ltb, map, nat_eq, none, some, string_eq,
  true, ℕ, ◌++◌, ◌∷◌,
}
use g_io_t_edge_gateway.Dict.{Dict}
use g_io_t_edge_gateway.Redis.{Redis}
use g_io_t_edge_gateway.Coordination.ClusterState.{
  ClusterNode, ClusterState, NodeStatus, add_node, alive, get_all_nodes, get_leader, get_node,
  is_unsettled, mark_alive, mark_leaving, update_node_heartbeat,
}
use g_io_t_edge_gateway.Coordination.ConfigSync.{ConfigSync, get_local, set_local}
use g_io_t_edge_gateway.Coordination.LeaderElection.{get_leader as lock_holder}

pub record HeartbeatReply : Type 0 where
  pub leader_id : String
  pub cluster_version : ℕ
  pub ack : Bool

pub record Member : Type 0 where
  pub node_id : String
  pub node_address : String
  pub status : NodeStatus
  pub is_leader : Bool

pub record JoinReply : Type 0 where
  pub members : List Member
  pub config : Dict String String
  pub cluster_version : ℕ

pub record StateReply : Type 0 where
  pub nodes : List ClusterNode
  pub leader_id : String
  pub cluster_version : ℕ
  pub config : Dict String String

abbrev pub fresh_node : ℕ → String → String → List String → ClusterNode
fresh_node now id address capabilities = record {
  node_id = id;
  node_address = address;
  status = alive;
  is_leader = false;
  last_heartbeat = now;
  capabilities = capabilities;
  metadata = [];
}

-- `existing` is the stored object, so the second test reads the status that the update left.
unfoldable pub upsert : ℕ → ClusterState → String → String → ClusterState
upsert now s id address = elim (get_node s id) [
  | none ↦ add_node s (fresh_node now id address [])
  | some _ ↦
      let s' = update_node_heartbeat now s id in
      elim (get_node s' id) [
        | none ↦ s'
        | some existing ↦ if is_unsettled existing.status then mark_alive now s' id else s'
      ]
]

-- `get_leader() or ""`.
abbrev pub or_empty : Option String → String
or_empty none = ""
or_empty (some id) = id

unfoldable pub heartbeat :
    (r : Redis) → ℕ → r.Db → ClusterState → String → String → ClusterState × HeartbeatReply
heartbeat r now d s id address =
    let s' = upsert now s id address in
    (
      s',
      record {
        leader_id = or_empty (lock_holder r now d);
        cluster_version = s'.cluster_version;
        ack = true;
      },
    )

abbrev pub member : ClusterNode → Member
member n = record {
  node_id = n.node_id;
  node_address = n.node_address;
  status = n.status;
  is_leader = n.is_leader;
}

unfoldable pub join_cluster :
    ℕ → ClusterState → String → String → List String → ClusterState × JoinReply
join_cluster now s id address capabilities =
    let s' = add_node s (fresh_node now id address capabilities) in
    (
      s',
      record {
        members = map member (get_all_nodes s');
        config = s'.config;
        cluster_version = s'.cluster_version;
      },
    )

-- The answer is `ack`.
unfoldable pub leave_cluster : ClusterState → String → ClusterState × Bool
leave_cluster s id = elim (get_node s id) [ none ↦ (s, false) | some _ ↦ (mark_leaving s id, true) ]

abbrev pub leader_name : Option ClusterNode → String
leader_name none = ""
leader_name (some n) = n.node_id

unfoldable pub get_cluster_state : ClusterState → StateReply
get_cluster_state s = record {
  nodes = get_all_nodes s;
  leader_id = leader_name (get_leader s);
  cluster_version = s.cluster_version;
  config = s.config;
}

pub record ConfigEntry : Type 0 where
  pub key : String
  pub value : String
  pub version : ℕ

-- One entry of the request stream, and what is yielded for it.
unfoldable pub sync_entry : ConfigSync → ConfigEntry → ConfigSync × List ConfigEntry
sync_entry c entry =
    let (local_value, local_version) = get_local c entry.key in
    if ltb entry.version local_version
    then (c, record { key = entry.key; value = local_value; version = local_version } ∷ [])
    else if ltb local_version entry.version
    then (set_local c entry.key entry.value entry.version, [])
    else (c, [])

unfoldable pub sync_config : ConfigSync → List ConfigEntry → ConfigSync × List ConfigEntry
sync_config c [] = (c, [])
sync_config c (entry ∷ entries) =
    let (c', yielded) = sync_entry c entry in
    let (c'', others) = sync_config c' entries in (c'', yielded ++ others)
