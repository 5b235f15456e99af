-- ===== src/Coordination/Servicer/Handlers.antt =====
-- coordination_servicer.py: what each handler does and answers, on every branch.
use g_io_t_edge_gateway.Prelude.{
  All, List, Option, String, [], arith, if◌then◌else◌, nat_eq, none, some, string_eq, ℕ, ◌+◌, ◌<◌,
  ◌==◌, ◌∷◌, ◌≡◌, ◌≢◌, ◌≤◌,
}
use g_io_t_edge_gateway.Dict.Laws.{lookup-insert, lookup-modify}
use g_io_t_edge_gateway.Coordination.ClusterState.{
  ClusterNode, ClusterState, add_node, beat, get_node, update_node_heartbeat,
}
use g_io_t_edge_gateway.Coordination.ConfigSync.{ConfigSync, get_local}
use g_io_t_edge_gateway.Coordination.ConfigSync.Replay.{get_local-set_local}
use g_io_t_edge_gateway.Coordination.Servicer.{
  ConfigEntry, fresh_node, sync_config, sync_entry, upsert,
}

-- What the handler leaves under the id: a new alive node, or the old one refreshed.
abbrev pub refreshed : ℕ → String → String → Option ClusterNode → ClusterNode
refreshed now id address none = fresh_node now id address []
refreshed now id address (some n) = beat now n

-- The handler `Heartbeat` refreshes a known node, which ends as ALIVE only if it was ALIVE, JOINING
-- or SUSPECT, registers an unknown one as ALIVE, and changes no other node. The version rises by one
-- for a new node and stays for a known one, so the branch that calls `mark_alive` is never taken.
pub upsert_lem :
    (now : ℕ) (s : ClusterState) (id address k : String)
    → (get_node (upsert now s id address) k
        ≡ (if id == k then some (refreshed now id address (get_node s id)) else get_node s k))
      × ((upsert now s id address).cluster_version
          ≡ elim (get_node s id) [ none ↦ s.cluster_version + 1 | some _ ↦ s.cluster_version ])
unfolding upsert get_node add_node update_node_heartbeat
upsert_lem now s id address k = (
  ground (
    arith,
    lookup-insert id k (fresh_node now id address []) s.nodes,
    lookup-modify id k (beat now) s.nodes,
    lookup-modify id id (beat now) s.nodes,
    string_eq.beq_iff id k,
    string_eq.beq_iff id id,
  ),
  ground (arith, lookup-modify id id (beat now) s.nodes, string_eq.beq_iff id id),
)

abbrev pub AtLeast : ConfigSync → ConfigEntry → Type 0
AtLeast c entry = entry.version ≤ (get_local c entry.key).1

sync_entry_mono :
    (c : ConfigSync) (entry : ConfigEntry) (k : String)
    → (get_local c k).1 ≤ (get_local (sync_entry c entry).0 k).1
unfolding sync_entry
sync_entry_mono c entry k = ground (
  arith,
  get_local-set_local c entry.key entry.value entry.version k,
  string_eq.beq_iff entry.key k,
)

sync_entry_known : (c : ConfigSync) (entry : ConfigEntry) → AtLeast (sync_entry c entry).0 entry
unfolding sync_entry
sync_entry_known c entry = ground (
  arith,
  get_local-set_local c entry.key entry.value entry.version entry.key,
  string_eq.beq_iff entry.key entry.key,
)

sync_config_mono :
    (c : ConfigSync) (entries : List ConfigEntry) (k : String)
    → (get_local c k).1 ≤ (get_local (sync_config c entries).0 k).1
unfolding sync_config
sync_config_mono c [] k = omega arith
sync_config_mono c (entry ∷ entries) k =
    omega (arith, sync_entry_mono c entry k, sync_config_mono (sync_entry c entry).0 entries k)

sync_config_known :
    (c : ConfigSync) (entries : List ConfigEntry) → All (AtLeast (sync_config c entries).0) entries
unfolding sync_config
sync_config_known c [] = tt
sync_config_known c (entry ∷ entries) = (
  omega
      (arith, sync_entry_known c entry, sync_config_mono (sync_entry c entry).0 entries entry.key),
  sync_config_known (sync_entry c entry).0 entries,
)

-- A stream of SyncConfig entries never lowers a local version, and afterwards every entry's key is
-- held at that entry's version or a newer one.
pub sync_config_lem :
    (c : ConfigSync) (entries : List ConfigEntry)
    → ((k : String) → (get_local c k).1 ≤ (get_local (sync_config c entries).0 k).1)
      × All (AtLeast (sync_config c entries).0) entries
sync_config_lem c entries = (sync_config_mono c entries, sync_config_known c entries)

-- After the exchange of one entry the two sides agree on it: the caller that takes what is yielded
-- has the same version as the servicer, and the same value if the versions differed before.
pub sync_entry_agrees :
    (c : ConfigSync) (entry : ConfigEntry)
    → let (c', yielded) = sync_entry c entry in
      (yielded ≡ [] → (get_local c' entry.key).1 ≡ entry.version)
      × (yielded ≢ []
          → (yielded
              ≡ record {
                key = entry.key;
                value = (get_local c' entry.key).0;
                version = (get_local c' entry.key).1;
              }
                ∷ [])
            × (entry.version < (get_local c' entry.key).1))
unfolding sync_entry
sync_entry_agrees c entry = ground (
  arith,
  get_local-set_local c entry.key entry.value entry.version entry.key,
  string_eq.beq_iff entry.key entry.key,
)
