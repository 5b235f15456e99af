-- ===== src/Redis.antt =====
-- The Redis server behind shared/shared/database/redis_client.py: a parameter of the model. `Redis`
-- has the commands that the services call, `RedisLaws` what its documentation says of them.
pub mod InMemory
pub mod Counting
use mathlib.Core.Option
use g_io_t_edge_gateway.Prelude.{
  Bool, List, Option, String, contains, false, if◌then◌else◌, ltb, map, nat_eq, none, some,
  string_eq, suc, true, ℕ, ◌*◌, ◌+◌, ◌==◌, ◌≡◌, ◌≤◌,
}

-- Times are microseconds; `EX` counts seconds.
abbrev pub second : ℕ
second = 1000000

-- Whether a key written at `now` with the option `EX` is still there at `later`.
abbrev pub lasts : ℕ → Option ℕ → ℕ → Bool
lasts now none later = true
lasts now (some ex) later = ltb later (now + ex * second)

pub record Redis : Type 1 where
  pub Db : Type 0
  -- GET at a time.
  pub get : ℕ → Db → String → Option String
  -- SET at a time, with the options EX and NX; the answer is whether the key was written.
  pub set : ℕ → Db → String → String → Option ℕ → Bool → Db × Bool
  -- DEL.
  pub delete : ℕ → Db → List String → Db
  -- The decimal text that INCR stores, and Python's `int` of a text; `none` where it raises.
  pub number : ℕ → String
  pub parse : String → Option ℕ
  -- INCR; `none` is the error for a value that is no integer.
  pub incr : ℕ → Db → String → Option (Db × ℕ)
  -- EXPIRE at a time, in seconds.
  pub expire : ℕ → Db → String → ℕ → Db
  -- PUBLISH and RPUSH, which touch no key that GET reads.
  pub publish : Db → String → String → Db
  pub rpush : Db → String → String → Db

-- The count that INCR reads: a missing key counts as 0.
abbrev pub counted : (String → Option ℕ) → Option String → Option ℕ
counted parse none = some 0
counted parse (some t) = parse t

-- INCR keeps the time to live of a key that is there, and sets none on a new one.
abbrev pub recounted : String → Option String → Option String → Option String
recounted t none o = some t
recounted t (some _) none = none
recounted t (some _) (some _) = some t

pub record RedisLaws (r : Redis) : Type 0 where
  pub get_set :
      (now later : ℕ) (d : r.Db) (k v : String) (ex : Option ℕ) (j : String)
      → now ≤ later
      → r.get later (r.set now d k v ex false).0 j
        ≡ (if k == j then (if lasts now ex later then some v else none) else r.get later d j)
  pub set_taken :
      (now : ℕ) (d : r.Db) (k v w : String) (ex : Option ℕ)
      → r.get now d k ≡ some w
      → r.set now d k v ex true ≡ (d, false)
  pub set_free :
      (now : ℕ) (d : r.Db) (k v : String) (ex : Option ℕ)
      → r.get now d k ≡ none
      → r.set now d k v ex true ≡ ((r.set now d k v ex false).0, true)
  pub get_delete :
      (now later : ℕ) (d : r.Db) (ks : List String) (j : String)
      → now ≤ later
      → r.get later (r.delete now d ks) j ≡ (if contains j ks then none else r.get later d j)
  pub get_expire :
      (now later : ℕ) (d : r.Db) (k : String) (ex : ℕ) (j : String)
      → now ≤ later
      → r.get later (r.expire now d k ex) j ≡ (
          if k == j
          then (if lasts now (some ex) later then r.get now d k else none)
          else r.get later d j)
  pub get_publish :
      (now : ℕ) (d : r.Db) (c m j : String) → r.get now (r.publish d c m) j ≡ r.get now d j
  pub get_rpush :
      (now : ℕ) (d : r.Db) (c m j : String) → r.get now (r.rpush d c m) j ≡ r.get now d j
  pub parse_number : (n : ℕ) → r.parse (r.number n) ≡ some n
  pub incr_count :
      (now : ℕ) (d : r.Db) (k : String)
      → Option.map (λ c. c.1) (r.incr now d k) ≡ Option.map suc (counted r.parse (r.get now d k))
  pub get_incr :
      (now later : ℕ) (d : r.Db) (k j : String) {d' : r.Db} {n : ℕ}
      → now ≤ later
      → r.incr now d k ≡ some (d', n)
      → r.get later d' j ≡ (
          if k == j
          then recounted (r.number n) (r.get now d k) (r.get later d k)
          else r.get later d j)
