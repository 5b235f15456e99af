-- ===== src/Middleware/RateLimiter/Quota.antt =====
-- rate_limiter.py: how many requests pass in one window.
use native.Mathlib.Nat.{div-add-mod, mod-lt}
use g_io_t_edge_gateway.Redis.Counting.{incr_of_count}
use g_io_t_edge_gateway.Prelude.{
  Bool, Bool-cases, List, Option, String, [], ap, arith, contains, false, if◌then◌else◌, inl, inr,
  length, ltb, min, nat_eq, none, not, some, string_eq, subst, suc, sym, zero, ℕ, ◌*◌, ◌+◌, ◌-◌,
  ◌/◌, ◌<◌, ◌==◌, ◌∙◌, ◌∷◌, ◌≡◌, ◌≤◌,
}
use g_io_t_edge_gateway.Redis.{Redis, RedisLaws, counted, second}
use g_io_t_edge_gateway.Middleware.RateLimiter.{
  Request, Response, Settings, after_count, dispatch, effective_limit, key_of, rate_limit_excluded,
  too_many, window_of,
}

-- Two times in one window are less than the window and a second apart.
window_span :
    (settings : Settings) (now later : ℕ)
    → 0 < settings.rate_limit_window_seconds
    → window_of settings later ≡ window_of settings now
    → later < now + (settings.rate_limit_window_seconds + 1) * second
window_span settings now later positive same =
    let w = settings.rate_limit_window_seconds in
    let a = now / second in
    let b = later / second in
    let start : w * (b / w) ≡ w * (a / w) = ap (λ x. w * x) same in
    omega (arith, start, div-add-mod a w, div-add-mod b w, mod-lt b positive)

module _ (r : Redis) (call_next : Request → r.Db → r.Db × Option Response) where
  open r use {Db, get, parse, number, incr, expire}

  -- The answers to requests, each with its time; a request is done before the next one.
  pub serve : Settings → Db → List (ℕ × Request) → List (Option Response)
  serve settings d [] = []
  serve settings d ((t, q) ∷ es) =
      let (d', out) = dispatch r call_next settings t t t t d q in out ∷ serve settings d' es

  abbrev is_accepted : Option Response → Bool
  is_accepted none = false
  is_accepted (some response) = not (response.status_code == 429)

  -- How many of them are answers other than 429.
  unfoldable pub accepted : List (Option Response) → ℕ
  accepted [] = 0
  accepted (out ∷ outs) = if is_accepted out then suc (accepted outs) else accepted outs

  -- What is relied on of the rest of the stack: it answers, not with 429, and leaves the counter.
  abbrev pub Calm : String → Type 0
  Calm k =
      (q : Request) (d : Db)
      → ((response : Response) × ((call_next q d).1 ≡ some response)
          × ((response.status_code == 429) ≡ false))
        × ((t : ℕ) → get t (call_next q d).0 k ≡ get t d k)

  -- The requests are counted under `k`, come in order of time, and have the limit.
  abbrev pub Counts : Settings → ℕ → String → ℕ → ℕ → List (ℕ × Request) → Type 0
  Counts settings w k limit t [] = Unit
  Counts settings w k limit t ((t', q) ∷ es) =
      (t ≤ t')
      × (window_of settings t' ≡ w)
      × (key_of r call_next settings t' q ≡ k)
      × (effective_limit settings q ≡ limit)
      × (contains q.path rate_limit_excluded ≡ false)
      × Counts settings w k limit t' es

  -- The counter reads `n` from `t` to the end of the window.
  abbrev pub Reads : Settings → ℕ → String → ℕ → ℕ → Db → Type 0
  Reads settings w k n t d =
      (later : ℕ)
      → t ≤ later
      → window_of settings later ≡ w
      → counted parse (get later d k) ≡ some n

  -- The database after the count.
  abbrev pub bumped : Settings → ℕ → String → ℕ → Db → Db
  bumped settings t k count d =
      if count == 1 then expire t d k (settings.rate_limit_window_seconds + 1) else d

  module _ (laws : RedisLaws r) where
    bumped-Reads :
        (settings : Settings) (w : ℕ) (k : String) (n t t' : ℕ) (d d' : Db)
        → 0 < settings.rate_limit_window_seconds
        → t ≤ t'
        → window_of settings t' ≡ w
        → Reads settings w k n t d
        → incr t' d k ≡ some (d', suc n)
        → Reads settings w k (suc n) t' (bumped settings t' k (suc n) d')
    bumped-Reads settings w k zero t t' d d' positive p same reads e later q there = ground (
      arith,
      window_span settings t' later positive (there ∙ sym same),
      laws.get_expire t' later d' k (settings.rate_limit_window_seconds + 1) k q,
      laws.get_incr t' t' d k k {d' = d'} {n = 1} (omega arith) e,
      laws.parse_number 1,
      string_eq.beq_iff k k,
    )
    bumped-Reads settings w k (suc m) t t' d d' positive p same reads e later q there = ground (
      arith,
      reads t' p same,
      reads later (omega (arith, p, q)) there,
      laws.get_incr t' later d k k {d' = d'} {n = suc (suc m)} q e,
      laws.parse_number (suc (suc m)),
      string_eq.beq_iff k k,
    )

    after_lem :
        (settings : Settings) (w : ℕ) (k : String) (limit n t : ℕ) (d : Db) (q : Request)
        → Calm k
        → key_of r call_next settings t q ≡ k
        → effective_limit settings q ≡ limit
        → Reads settings w k (suc n) t (bumped settings t k (suc n) d)
        → let (d', out) = after_count r call_next settings t t t q (d, suc n) in
          (is_accepted out ≡ ltb n limit) × Reads settings w k (suc n) t d'
    unfolding after_count too_many
    after_lem settings w k limit n t d q calm key limited next =
        let d₂ = bumped settings t k (suc n) d in
        let ((response, answers, fine), keeps) = calm q d₂ in
        elim (Bool-cases (ltb n limit)) [
          | inl below ↦ (
            ground (arith, below, limited, key, answers, fine),
            λ later late there.
                ground (arith, below, limited, key, answers, keeps later, next later late there),
          )
          | inr over ↦ (
            ground (arith, over, limited, key),
            λ later late there. ground (arith, over, limited, key, next later late there),
          )
        ]

    -- One counted request: it passes exactly below the limit, and the counter goes on.
    dispatch_step :
        (settings : Settings) (w : ℕ) (k : String) (limit n t t' : ℕ) (d : Db) (q : Request)
        → 0 < settings.rate_limit_window_seconds
        → Calm k
        → Reads settings w k n t d
        → t ≤ t'
        → window_of settings t' ≡ w
        → key_of r call_next settings t' q ≡ k
        → effective_limit settings q ≡ limit
        → contains q.path rate_limit_excluded ≡ false
        → let (d', out) = dispatch r call_next settings t' t' t' t' d q in
          (is_accepted out ≡ ltb n limit) × Reads settings w k (suc n) t' d'
    unfolding dispatch after_count too_many
    dispatch_step settings w k limit n t t' d q positive calm reads p same key limited counts =
        let (d₁, e) = incr_of_count r laws t' d k n (reads t' p same) in
        let d₂ = bumped settings t' k (suc n) d₁ in
        let next : Reads settings w k (suc n) t' d₂ =
          bumped-Reads settings w k n t t' d d₁ positive p same reads e in
        let after = after_count r call_next settings t' t' t' q (d₁, suc n) in
        let whole : after ≡ dispatch r call_next settings t' t' t' t' d q =
          ground (arith, e, key, counts) in
        subst (λ o. (is_accepted o.1 ≡ ltb n limit) × Reads settings w k (suc n) t' o.0) whole
          (after_lem settings w k limit n t' d₁ q calm key limited next)

    -- In one window, of the requests that are counted under one key and done one after the other, as
    -- many pass as the limit allows: the smaller of their number and what the counter leaves of the
    -- limit, if the rest of the stack answers each, never with 429, and leaves the counter alone.
    pub quota :
        (settings : Settings) (w : ℕ) (k : String) (limit n t : ℕ) (d : Db)
        (es : List (ℕ × Request))
        → 0 < settings.rate_limit_window_seconds
        → Calm k
        → Reads settings w k n t d
        → Counts settings w k limit t es
        → accepted (serve settings d es) ≡ min (length es) (limit - n)
    unfolding serve accepted
    quota settings w k limit n t d [] positive calm reads counts = omega arith
    quota settings w k limit n t d ((t', q) ∷ es) positive calm reads
          (p, same, key, limited, counts, rest) =
        let (passed, next) =
          dispatch_step settings w k limit n t t' d q positive calm reads p same key limited
            counts in
        ground (
          arith,
          passed,
          quota settings w k limit (suc n) t' (dispatch r call_next settings t' t' t' t' d q).0 es
              positive calm next rest,
        )
