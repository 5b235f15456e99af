-- ===== src/Redis/Counting.antt =====
-- What INCR answers.
use g_io_t_edge_gateway.Prelude.{
  Option-cases, String, arith, inl, inr, nat_eq, some, string_eq, suc, ℕ, ◌≡◌,
}
use g_io_t_edge_gateway.Redis.{Redis, RedisLaws, counted}

module _ (r : Redis) (laws : RedisLaws r) where
  open r use {Db, get, incr, parse}

  -- On a number (a missing key counts as 0) INCR answers the next one.
  pub incr_of_count :
      (now : ℕ) (d : Db) (k : String) (n : ℕ)
      → counted parse (get now d k) ≡ some n
      → (d' : Db) × (incr now d k ≡ some (d', suc n))
  incr_of_count now d k n h = elim (Option-cases (incr now d k)) [
    | inl e ↦ ground (arith, laws.incr_count now d k)
    | inr ((d', m), e) ↦ (d', ground (arith, laws.incr_count now d k))
  ]
