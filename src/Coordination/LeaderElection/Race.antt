-- ===== src/Coordination/LeaderElection/Race.antt =====
-- leader_election.py: what a single uninterrupted attempt answers, and what an interrupted one
-- can do.
use g_io_t_edge_gateway.Prelude.{
  Option-cases, arith, false, inl, inr, nat_eq, none, some, string_eq, true, ℕ, ◌<◌, ◌↔◌, ◌≡◌, ◌≤◌,
  ◌⊎◌,
}
use g_io_t_edge_gateway.Redis.{Redis, RedisLaws}
use g_io_t_edge_gateway.Coordination.LeaderElection.{
  LeaderElection, get_leader, lock_key, try_acquire,
}
use g_io_t_edge_gateway.Coordination.LeaderElection.Lease.{quiet}

module _ (r : Redis) (laws : RedisLaws r) where
  open r use {Db, get, set}

  -- An uninterrupted attempt succeeds exactly when the lock is free or already the node's own, at
  -- a moment when it does not run out; it then reads as the node's, and otherwise nothing changed.
  pub try_acquire_iff :
      (t : ℕ) (d : Db) (e : LeaderElection)
      → 0 < e.ttl
      → let (d', e', won) = try_acquire r t t t quiet quiet d e in
        ((won ≡ true) ↔ ((get t d lock_key ≡ none) ⊎ (get t d lock_key ≡ some e.node_id)))
        × (e'.is_leader ≡ won)
        × (won ≡ true → get t d' lock_key ≡ some e.node_id)
        × (won ≡ false → d' ≡ d)
  unfolding try_acquire
  try_acquire_iff t d e positive = elim (Option-cases (get t d lock_key)) [
    | inl free ↦ ground (
      arith,
      laws.set_free t d lock_key e.node_id (some e.ttl) free,
      laws.get_set t t d lock_key e.node_id (some e.ttl) lock_key (omega arith),
      string_eq.beq_iff lock_key lock_key,
    )
    | inr (w, taken) ↦ ground (
      arith,
      laws.set_taken t d lock_key e.node_id w (some e.ttl) taken,
      laws.get_set t t d lock_key e.node_id (some e.ttl) lock_key (omega arith),
      string_eq.beq_iff lock_key lock_key,
      string_eq.beq_iff w e.node_id,
    )
  ]

  -- The check and the renewal are two requests. If the lock of `a` runs out between them and `b`
  -- attempts in that moment, both attempts succeed: `b` goes on as leader, and the lock reads `a`.
  pub two_leaders :
      (t₀ t₁ u t₂ : ℕ) (d : Db) (a b : LeaderElection)
      → t₀ ≤ t₁
      → t₁ ≤ u
      → u ≤ t₂
      → 0 < a.ttl
      → get t₀ d lock_key ≡ some a.node_id
      → get t₁ d lock_key ≡ some a.node_id
      → get u d lock_key ≡ none
      → let steal = λ (x : Db). try_acquire r u u u quiet quiet x b in
        let (d', a', won) = try_acquire r t₀ t₁ t₂ quiet (λ x. (steal x).0) d a in
        ((steal d).2 ≡ true)
        × ((steal d).1.is_leader ≡ true)
        × (won ≡ true)
        × (a'.is_leader ≡ true)
        × (get_leader r t₂ d' ≡ some a.node_id)
  unfolding try_acquire get_leader
  two_leaders t₀ t₁ u t₂ d a b p q s positive h₀ h₁ free = ground (
    arith,
    laws.set_free u d lock_key b.node_id (some b.ttl) free,
    laws.set_taken t₀ d lock_key a.node_id a.node_id (some a.ttl) h₀,
    string_eq.beq_iff a.node_id a.node_id,
    string_eq.beq_iff lock_key lock_key,
    laws.get_set t₂ t₂ (set u d lock_key b.node_id (some b.ttl) false).0 lock_key a.node_id
        (some a.ttl) lock_key (omega arith),
  )
