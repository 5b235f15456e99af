-- ===== src/Coordination/ConfigSync/Replay.antt =====
-- config_sync.py: what a follower's cache holds after any list of notifications.
use mathlib.Core.Option
use g_io_t_edge_gateway.Prelude.{
  ==_eq, All, Any, Bool-cases, List, Option-cases, String, [], arith, if◌then◌else◌, inl, inr, ltb,
  max, nat_eq, some, string_eq, ℕ, ◌&&◌, ◌==◌, ◌∷◌, ◌≡◌, ◌≤◌,
}
use g_io_t_edge_gateway.Dict.{insert, lookup}
use g_io_t_edge_gateway.Dict.Laws.{get_or-lookup, lookup-insert}
use g_io_t_edge_gateway.Coordination.ClusterState.{get_config, set_config}
use g_io_t_edge_gateway.Coordination.ConfigSync.{
  ConfigSync, Json, Notification, get_local, on_update, set_local,
}

-- What is assumed of the encoding: the notifications read back as they were.
abbrev pub RoundTrip : Json → List Notification → Type 0
RoundTrip json = All (λ m. json.loads (json.dumps m) ≡ some m)

-- The notifications arrive in the order of the list.
unfoldable pub replay : Json → ConfigSync → List Notification → ConfigSync
replay json c [] = c
replay json c (m ∷ ms) = replay json (on_update json c (json.dumps m)) ms

-- The highest version among the notifications of a key.
unfoldable pub newest : String → List Notification → ℕ
newest k [] = 0
newest k (m ∷ ms) = max (if m.key == k then m.version else 0) (newest k ms)

-- The value is settled by key and version: INCR gives every write of a key its own version.
abbrev pub Settles : (String → ℕ → String) → List Notification → Type 0
Settles value_of = All (λ m. m.value ≡ value_of m.key m.version)

pub get_local-set_local :
    (c : ConfigSync) (key value : String) (version : ℕ) (k : String)
    → get_local (set_local c key value version) k
      ≡ (if key == k then (value, version) else get_local c k)
unfolding get_local set_local
get_local-set_local c key value version k = ground (
  arith,
  get_or-lookup k ("", 0) (insert key (value, version) c.local_config),
  get_or-lookup k ("", 0) c.local_config,
  lookup-insert key k (value, version) c.local_config,
)

get_local-on_update :
    (json : Json) (c : ConfigSync) (m : Notification) (k : String)
    → json.loads (json.dumps m) ≡ some m
    → get_local (on_update json c (json.dumps m)) k ≡ (
        if m.key == k && ltb (get_local c k).1 m.version
        then (m.value, m.version)
        else get_local c k)
unfolding on_update
get_local-on_update json c m k trips =
    ground
      (arith, trips, get_local-set_local c m.key m.value m.version k, string_eq.beq_iff m.key k)

-- After any notifications in any order a follower holds, for each key, the newest of their versions
-- with its value, if that is newer than what it held before, and otherwise what it held.
pub get_local-replay :
    (json : Json) (value_of : String → ℕ → String) (c : ConfigSync) (ms : List Notification)
    (k : String)
    → RoundTrip json ms
    → Settles value_of ms
    → get_local (replay json c ms) k ≡ (
        if ltb (get_local c k).1 (newest k ms)
        then (value_of k (newest k ms), newest k ms)
        else get_local c k)
unfolding replay newest
get_local-replay json value_of c [] k trips settled = ground arith
get_local-replay json value_of c (m ∷ ms) k trips settled = ground (
  arith,
  get_local-replay json value_of (on_update json c (json.dumps m)) ms k trips.1 settled.1,
  get_local-on_update json c m k trips.0,
  string_eq.beq_iff m.key k,
  settled.0,
)

-- Every notification of the first list is in the second.
abbrev pub Covered : List Notification → List Notification → Type 0
Covered ms ns = All (λ m. Any (λ n. m ≡ n) ns) ms

newest_above :
    (k : String) (m : Notification) (ns : List Notification)
    → m.key ≡ k
    → Any (λ n. m ≡ n) ns
    → m.version ≤ newest k ns
unfolding newest
newest_above k m [] same h = absurd h
newest_above k m (n ∷ ns) same (inl e) = ground (arith, string_eq.beq_iff n.key k)
newest_above k m (n ∷ ns) same (inr h) = omega (arith, newest_above k m ns same h)

newest_mono : (k : String) (ms ns : List Notification) → Covered ms ns → newest k ms ≤ newest k ns
unfolding newest
newest_mono k [] ns h = omega arith
newest_mono k (m ∷ ms) ns h = elim (Bool-cases (m.key == k)) [
  | inl same ↦ ground (arith, newest_mono k ms ns h.1, newest_above k m ns (==_eq m.key k same) h.0)
  | inr differ ↦ ground (arith, newest_mono k ms ns h.1)
]

-- Two followers that start alike and receive the same notifications end alike, whatever the order
-- in which each receives them and however often, if the notifications can be read back and one
-- version of a key has one value.
pub replay_converges :
    (json : Json) (value_of : String → ℕ → String) (c : ConfigSync) (ms ns : List Notification)
    (k : String)
    → RoundTrip json ms
    → RoundTrip json ns
    → Settles value_of ms
    → Settles value_of ns
    → Covered ms ns
    → Covered ns ms
    → get_local (replay json c ms) k ≡ get_local (replay json c ns) k
replay_converges json value_of c ms ns k tm tn sm sn there back = ground (
  arith,
  get_local-replay json value_of c ms k tm sm,
  get_local-replay json value_of c ns k tn sn,
  newest_mono k ms ns there,
  newest_mono k ns ms back,
)

-- The cluster state has the value of every key that the cache has, and of no other.
abbrev pub Mirrors : ConfigSync → Type 0
Mirrors c =
    (k : String) → get_config c.cluster_state k ≡ Option.map (λ e. e.0) (lookup k c.local_config)

set_local-Mirrors :
    (c : ConfigSync) (key value : String) (version : ℕ)
    → Mirrors c
    → Mirrors (set_local c key value version)
unfolding set_local get_config set_config
set_local-Mirrors c key value version h k = ground (
  arith,
  h k,
  lookup-insert key k (value, version) c.local_config,
  lookup-insert key k value c.cluster_state.config,
)

-- The cluster state goes on mirroring the cache through any notifications, readable or not.
pub on_update-Mirrors :
    (json : Json) (c : ConfigSync) (text : String) → Mirrors c → Mirrors (on_update json c text)
unfolding on_update
on_update-Mirrors json c text h k = elim (Option-cases (json.loads text)) [
  | inl e ↦ ground (arith, e, h k)
  | inr (m, e) ↦ ground (arith, e, h k, set_local-Mirrors c m.key m.value m.version h k)
]
