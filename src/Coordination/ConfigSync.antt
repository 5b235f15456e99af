-- ===== src/Coordination/ConfigSync.antt =====
-- services/config_sync.py. A ConfigSync and the ClusterState that it shares change together. JSON is
-- a parameter; the keys that SCAN returned are an argument, read from a database that rests.
pub mod Keys
pub mod Replay
use mathlib.Core.Option
use Prim.Native.String.{◌++◌ as str_append, slice, len}
use text.Mathlib.Text.{starts_with}
use g_io_t_edge_gateway.Prelude.{
  List, Option, String, [], false, if◌then◌else◌, ltb, nat_eq, none, some, string_eq, ℕ, ◌+◌, ◌==◌,
  ◌∷◌,
}
use g_io_t_edge_gateway.Dict.{Dict, get_or, insert, keys}
use g_io_t_edge_gateway.Redis.{Redis}
use g_io_t_edge_gateway.Coordination.ClusterState.{ClusterState, set_config}

pub record ConfigSync : Type 0 where
  pub cluster_state : ClusterState
  pub node_id : String
  -- Key to value and version.
  pub local_config : Dict String (String × ℕ)

pub record Notification : Type 0 where
  pub key : String
  pub value : String
  pub version : ℕ
  pub updated_by : String

-- `json.dumps` of a notification, and what `json.loads` and the three subscripts make of a text;
-- `none` is a JSONDecodeError or a KeyError.
pub record Json : Type 0 where
  pub dumps : Notification → String
  pub loads : String → Option Notification

abbrev pub config_updates_channel : String
config_updates_channel = "config_updates"

abbrev pub config_prefix : String
config_prefix = "iot-gateway:config:"

abbrev pub version_prefix : String
version_prefix = "iot-gateway:config:version:"

unfoldable pub value_key : String → String
value_key key = str_append config_prefix key

unfoldable pub version_key : String → String
version_key key = str_append version_prefix key

unfoldable pub get_local : ConfigSync → String → String × ℕ
get_local c key = get_or key ("", 0) c.local_config

unfoldable pub set_local : ConfigSync → String → String → ℕ → ConfigSync
set_local c key value version = record c {
  local_config = insert key (value, version) c.local_config;
  cluster_state = set_config c.cluster_state key value;
}

-- The body of the subscriber's loop for one message; its text may be no notification.
unfoldable pub on_update : Json → ConfigSync → String → ConfigSync
on_update json c text = elim (json.loads text) [
  | none ↦ c
  | some m ↦ if ltb (get_local c m.key).1 m.version then set_local c m.key m.value m.version else c
]

-- `key[len(prefix):]`; the prefix is ASCII, so bytes and characters agree on it.
unfoldable pub short_key : String → String
short_key key = slice key (len config_prefix) (len key)

module _ (r : Redis) (json : Json) where
  open r use {Db, get, set, incr, parse, publish}

  -- INCR at `t₀`, SET at `t₁`, with other clients between them. `none` is the error of INCR.
  unfoldable pub write_config :
      (t₀ t₁ : ℕ) → (Db → Db) → Db → ConfigSync → String → String → Option (Db × ConfigSync × ℕ)
  write_config t₀ t₁ between d c key value = elim (incr t₀ d (version_key key)) [
    | none ↦ none
    | some (d₀, version) ↦
        let (d₁, _) = set t₁ (between d₀) (value_key key) value none false in
        let notification : Notification = record {
          key = key;
          value = value;
          version = version;
          updated_by = c.node_id;
        } in
        some (
          publish d₁ config_updates_channel (json.dumps notification),
          set_local c key value version,
          version,
        )
  ]

  unfoldable pub read_config : ℕ → Db → String → Option String
  read_config now d key = get now d (value_key key)

  -- `int(raw_ver) if raw_ver else 1`; `none` where `int` raises.
  read_version : Option String → Option ℕ
  read_version none = some 1
  read_version (some t) = if t == "" then some 1 else parse t

  -- One key of a page. The count is `none` once `int` has raised, which ends the loop.
  sync_key : ℕ → Db → ConfigSync × Option ℕ → String → ConfigSync × Option ℕ
  unfolding read_version
  sync_key now d (c, none) key = (c, none)
  sync_key now d (c, some count) key =
      if starts_with key version_prefix then (c, some count) else elim (get now d key) [
        | none ↦ (c, some count)
        | some value ↦ elim (read_version (get now d (version_key (short_key key)))) [
          | none ↦ (c, none)
          | some version ↦ (set_local c (short_key key) value version, some (count + 1))
        ]
      ]

  sync_keys : ℕ → Db → ConfigSync × Option ℕ → List String → ConfigSync × Option ℕ
  unfolding sync_key
  sync_keys now d a [] = a
  sync_keys now d a (key ∷ keys) = sync_keys now d (sync_key now d a key) keys

  -- The keys of all pages that SCAN returned, in order.
  unfoldable pub sync_from_leader : ℕ → Db → List String → ConfigSync → ConfigSync × Option ℕ
  unfolding sync_keys
  sync_from_leader now d keys c = sync_keys now d (c, some 0) keys
