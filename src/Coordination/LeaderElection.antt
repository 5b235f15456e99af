-- ===== src/Coordination/LeaderElection.antt =====
-- services/leader_election.py. Each await is a moment at which other clients may change the
-- database: what they do between two awaits is an argument.
pub mod Lease
pub mod Race
use g_io_t_edge_gateway.Prelude.{
  Bool, Option, String, [], false, if◌then◌else◌, nat_eq, none, some, string_eq, true, ℕ, ◌==◌, ◌∷◌,
}
use g_io_t_edge_gateway.Redis.{Redis}

pub record LeaderElection : Type 0 where
  pub node_id : String
  pub ttl : ℕ
  pub is_leader : Bool

abbrev pub lock_key : String
lock_key = "iot-gateway:leader"

-- `current == self._node_id`, where `current` may be `None`.
abbrev pub holds : Option String → String → Bool
holds none id = false
holds (some current) id = current == id

abbrev pub believing : LeaderElection → Bool → LeaderElection
believing e b = record e { is_leader = b }

module _ (r : Redis) where
  open r use {Db, get, set, delete}

  -- The three calls happen at `t₀`, `t₁` and `t₂`; `between` and `later` are the other clients.
  unfoldable pub try_acquire :
      (t₀ t₁ t₂ : ℕ) → (Db → Db) → (Db → Db) → Db → LeaderElection → Db × LeaderElection × Bool
  try_acquire t₀ t₁ t₂ between later d e =
      let (d₀, won) = set t₀ d lock_key e.node_id (some e.ttl) true in
      let d₁ = between d₀ in
      if won
      then (d₀, believing e true, true)
      else if holds (get t₁ d₁ lock_key) e.node_id
      then ((set t₂ (later d₁) lock_key e.node_id (some e.ttl) false).0, believing e true, true)
      else (d₁, believing e false, false)

  -- Read and DEL happen at `t₀` and `t₁`.
  unfoldable pub release : (t₀ t₁ : ℕ) → (Db → Db) → Db → LeaderElection → Db × LeaderElection
  release t₀ t₁ between d e =
      if e.is_leader
      then (
        if holds (get t₀ d lock_key) e.node_id then delete t₁ (between d) (lock_key ∷ []) else d,
        believing e false,
      )
      else (d, e)

  unfoldable pub get_leader : ℕ → Db → Option String
  get_leader now d = get now d lock_key
