-- ===== src/Coordination/LeaderElection/Lease.antt =====
-- leader_election.py: while a lock lasts, no other node becomes leader.
use g_io_t_edge_gateway.Prelude.{
  ==_ne, All, Bool, List, Option-cases, String, [], arith, false, inl, inr, nat_eq, refl, some,
  string_eq, sym, true, ℕ, ◌*◌, ◌+◌, ◌<◌, ◌||◌, ◌∷◌, ◌≡◌, ◌≢◌, ◌≤◌,
}
use g_io_t_edge_gateway.Redis.{Redis, RedisLaws, second}
use g_io_t_edge_gateway.Coordination.LeaderElection.{
  LeaderElection, get_leader, lock_key, release, try_acquire,
}

-- A call of `try_acquire` or `release` that no other client interrupts, with the times of its
-- requests.
pub data Action : Type 0 where
  tries : LeaderElection → ℕ → ℕ → ℕ → Action
  releases : LeaderElection → ℕ → ℕ → Action

abbrev pub quiet {ℓ} : {A : Type ℓ} → A → A
quiet d = d

-- The action is of another node than `id`, and its requests fall into the time from `start` to
-- before `end`.
abbrev pub IsForeign : String → ℕ → ℕ → Action → Type 0
IsForeign id start end (tries e t₀ t₁ t₂) = (e.node_id ≢ id) × (start ≤ t₀) × (t₀ ≤ t₁) × (t₁ < end)
IsForeign id start end (releases e t₀ t₁) = (e.node_id ≢ id) × (start ≤ t₀) × (t₀ < end)

module _ (r : Redis) where
  open r use {Db, get, set}

  -- The database after an action, and whether it made its node leader.
  unfoldable pub act : Db → Action → Db × Bool
  unfolding try_acquire release
  act d (tries e t₀ t₁ t₂) = let (d', e', won) = try_acquire r t₀ t₁ t₂ quiet quiet d e in (d', won)
  act d (releases e t₀ t₁) = let (d', e') = release r t₀ t₁ quiet d e in (d', false)

  -- The database after a list of actions, and whether one of them made its node leader.
  unfoldable pub act_all : Db → List Action → Db × Bool
  unfolding act
  act_all d [] = (d, false)
  act_all d (a ∷ acts) =
      let (d', won) = act d a in let (d'', later_won) = act_all d' acts in (d'', won || later_won)

  -- The lock is `id`'s from `start` to before `end`.
  abbrev pub Held : Db → String → ℕ → ℕ → Type 0
  Held d id start end = (t : ℕ) → start ≤ t → t < end → get t d lock_key ≡ some id

  module _ (laws : RedisLaws r) where
    act-Held :
        (d : Db) (id : String) (start end : ℕ) (a : Action)
        → Held d id start end
        → IsForeign id start end a
        → act d a ≡ (d, false)
    unfolding act try_acquire
    act-Held d id start end (tries e t₀ t₁ t₂) held (other, p, q, u) = ground (
      arith,
      laws.set_taken t₀ d lock_key e.node_id id (some e.ttl) (held t₀ p (omega arith)),
      held t₁ (omega arith) u,
      ==_ne id e.node_id (λ same. other (sym same)),
    )
    act-Held d id start end (releases e t₀ t₁) held (other, p, q) =
        unfold release in ground (arith, held t₀ p q, ==_ne id e.node_id (λ same. other (sym same)))

    act_all-Held :
        (d : Db) (id : String) (start end : ℕ) (acts : List Action)
        → Held d id start end
        → All (IsForeign id start end) acts
        → act_all d acts ≡ (d, false)
    unfolding act_all
    act_all-Held d id start end [] held foreign = refl
    act_all-Held d id start end (a ∷ acts) held foreign =
        rw (act-Held d id start end a held foreign.0)
          (rw (act_all-Held d id start end acts held foreign.1))

    -- A successful attempt, whatever other clients do during it, holds the lock from its last
    -- request until the time to live has passed since its first one.
    try_acquire-Held :
        (t₀ t₁ t₂ : ℕ) (between later : Db → Db) (d : Db) (e : LeaderElection)
        → t₀ ≤ t₁
        → t₁ ≤ t₂
        → (try_acquire r t₀ t₁ t₂ between later d e).2 ≡ true
        → Held (try_acquire r t₀ t₁ t₂ between later d e).0 e.node_id t₂ (t₀ + e.ttl * second)
    unfolding try_acquire
    try_acquire-Held t₀ t₁ t₂ between later d e p q won t after before =
        elim (Option-cases (get t₀ d lock_key)) [
          | inl free ↦ ground (
            arith,
            laws.set_free t₀ d lock_key e.node_id (some e.ttl) free,
            laws.get_set t₀ t d lock_key e.node_id (some e.ttl) lock_key (omega arith),
            string_eq.beq_iff lock_key lock_key,
          )
          | inr (w, taken) ↦ ground (
            arith,
            laws.set_taken t₀ d lock_key e.node_id w (some e.ttl) taken,
            laws.get_set t₂ t (later (between d)) lock_key e.node_id (some e.ttl) lock_key after,
            string_eq.beq_iff lock_key lock_key,
          )
        ]

    -- When an attempt has made a node leader, whatever other clients did during it, then until its
    -- time to live has passed since its first request, no sequence of uninterrupted attempts and
    -- releases by other nodes makes one of them leader or changes the lock, which stays the node's.
    pub lease_excludes :
        (t₀ t₁ t₂ : ℕ) (between later : Db → Db) (d : Db) (e : LeaderElection) (acts : List Action)
        → t₀ ≤ t₁
        → t₁ ≤ t₂
        → (try_acquire r t₀ t₁ t₂ between later d e).2 ≡ true
        → All (IsForeign e.node_id t₂ (t₀ + e.ttl * second)) acts
        → let d' = (try_acquire r t₀ t₁ t₂ between later d e).0 in
          (act_all d' acts ≡ (d', false))
          × ((t : ℕ) → t₂ ≤ t → t < t₀ + e.ttl * second → get_leader r t d' ≡ some e.node_id)
    unfolding get_leader
    lease_excludes t₀ t₁ t₂ between later d e acts p q won foreign =
        let held = try_acquire-Held t₀ t₁ t₂ between later d e p q won in
        (act_all-Held _ e.node_id t₂ (t₀ + e.ttl * second) acts held foreign, held)
