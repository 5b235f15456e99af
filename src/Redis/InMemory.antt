-- ===== src/Redis/InMemory.antt =====
-- A database in memory that meets the laws: they can hold, and the tests run on it.
use Prim.Native.Char.{code}
use mathlib.Core.Option
use g_io_t_edge_gateway.Prelude.{
  Bool, List, Option, Option-cases, String, [], ap, arith, contains, false, if◌then◌else◌, inl, inr,
  nat_eq, none, refl, some, string_eq, suc, true, zero, ℕ, ◌==◌, ◌∷◌, ◌≡◌, ◌≤◌,
}
use g_io_t_edge_gateway.Dict.{Dict, erase, insert, lookup}
use g_io_t_edge_gateway.Dict.Laws.{lookup-erase, lookup-insert}
use g_io_t_edge_gateway.Redis.{Redis, RedisLaws, counted, lasts, recounted}

-- A value, when it was written, and its `EX`.
pub record Cell : Type 0 where
  pub value : String
  pub written : ℕ
  pub ex : Option ℕ

abbrev visible : ℕ → Option Cell → Option String
visible now none = none
visible now (some c) = if lasts c.written c.ex now then some c.value else none

unfoldable pub read : ℕ → Dict String Cell → String → Option String
read now d k = visible now (lookup k d)

abbrev cell : ℕ → String → Option ℕ → Cell
cell now v ex = record { value = v; written = now; ex = ex }

unfoldable pub write :
    ℕ → Dict String Cell → String → String → Option ℕ → Bool → Dict String Cell × Bool
unfolding read
write now d k v ex false = (insert k (cell now v ex) d, true)
write now d k v ex true = elim (read now d k) [
  | none ↦ (insert k (cell now v ex) d, true)
  | some _ ↦ (d, false)
]

unfoldable pub remove : Dict String Cell → List String → Dict String Cell
remove d [] = d
remove d (k ∷ ks) = remove (erase k d) ks

-- Numbers in unary: the laws ask no more of a text than that it can be read back.
unfoldable pub marks : ℕ → String
marks zero = String.[]
marks (suc n) = String.◌∷◌ "1" (marks n)

unfoldable pub count_marks : String → Option ℕ
count_marks String.[] = some 0
count_marks (String.◌∷◌ c s) = if code c == 49 then Option.map suc (count_marks s) else none

-- The cell that a count goes to: an old one keeps its time to live.
abbrev recount : ℕ → Dict String Cell → String → ℕ → Cell
recount now d k n = elim (lookup k d) [
  | none ↦ cell now (marks n) none
  | some c ↦
      if lasts c.written c.ex now then record c { value = marks n } else cell now (marks n) none
]

unfoldable pub count_up : ℕ → Dict String Cell → String → Option (Dict String Cell × ℕ)
unfolding read
count_up now d k = elim (counted count_marks (read now d k)) [
  | none ↦ none
  | some n ↦ some (insert k (recount now d k (suc n)) d, suc n)
]

-- A key that is there starts a new time to live.
unfoldable pub renew : ℕ → Dict String Cell → String → ℕ → Dict String Cell
renew now d k ex = elim (lookup k d) [
  | none ↦ d
  | some c ↦ if lasts c.written c.ex now then insert k (cell now c.value (some ex)) d else d
]

abbrev pub in_memory : Redis
in_memory = record {
  Db = Dict String Cell;
  get = read;
  set = write;
  delete = λ now d ks. remove d ks;
  number = marks;
  parse = count_marks;
  incr = count_up;
  expire = renew;
  publish = λ d c m. d;
  rpush = λ d c m. d;
}

read-write :
    (now later : ℕ) (d : Dict String Cell) (k v : String) (ex : Option ℕ) (j : String)
    → now ≤ later
    → read later (write now d k v ex false).0 j
      ≡ (if k == j then (if lasts now ex later then some v else none) else read later d j)
unfolding read write
read-write now later d k v ex j h =
    ground (arith, lookup-insert k j (cell now v ex) d, string_eq.beq_iff k j)

write_taken :
    (now : ℕ) (d : Dict String Cell) (k v w : String) (ex : Option ℕ)
    → read now d k ≡ some w
    → write now d k v ex true ≡ (d, false)
unfolding write
write_taken now d k v w ex h = rw (h, write)

write_free :
    (now : ℕ) (d : Dict String Cell) (k v : String) (ex : Option ℕ)
    → read now d k ≡ none
    → write now d k v ex true ≡ ((write now d k v ex false).0, true)
unfolding write
write_free now d k v ex h = rw (h, write)

read-remove :
    (later : ℕ) (d : Dict String Cell) (ks : List String) (j : String)
    → read later (remove d ks) j ≡ (if contains j ks then none else read later d j)
unfolding read remove contains
read-remove later d [] j = refl
read-remove later d (k ∷ ks) j =
    ground (arith, read-remove later (erase k d) ks j, lookup-erase k j d, string_eq.beq_iff k j)

count_marks-marks : (n : ℕ) → count_marks (marks n) ≡ some n
unfolding marks count_marks
count_marks-marks zero = refl
count_marks-marks (suc n) = rw (count_marks-marks n)

count_up_count :
    (now : ℕ) (d : Dict String Cell) (k : String)
    → Option.map (λ c. c.1) (count_up now d k) ≡ Option.map suc (counted count_marks (read now d k))
unfolding count_up
count_up_count now d k = ground arith

-- A key that is gone stays gone.
lasts_mono :
    (w now later : ℕ) (ex : Option ℕ)
    → now ≤ later
    → lasts w ex later ≡ true
    → lasts w ex now ≡ true
lasts_mono w now later none h l = refl
lasts_mono w now later (some x) h l = ground arith

read-count_up :
    (now later : ℕ) (d : Dict String Cell) (k j : String) {d' : Dict String Cell} {n : ℕ}
    → now ≤ later
    → count_up now d k ≡ some (d', n)
    → read later d' j
      ≡ (if k == j then recounted (marks n) (read now d k) (read later d k) else read later d j)
unfolding count_up read
read-count_up now later d k j {d'} {n} h e = ground (
  arith,
  ap (λ x. visible later (lookup j x)) (stored e),
  lookup-insert k j (recount now d k n) d,
  string_eq.beq_iff k j,
)
  where
    stored : count_up now d k ≡ some (d', n) → d' ≡ insert k (recount now d k n) d
    stored h' = ground arith

read-renew :
    (now later : ℕ) (d : Dict String Cell) (k : String) (ex : ℕ) (j : String)
    → now ≤ later
    → read later (renew now d k ex) j ≡ (
        if k == j
        then (if lasts now (some ex) later then read now d k else none)
        else read later d j)
unfolding read renew
read-renew now later d k ex j h = elim (Option-cases (lookup k d)) [
  | inl gone ↦ ground (arith, gone, string_eq.beq_iff k j)
  | inr (c, there) ↦ ground (
    arith,
    there,
    lookup-insert k j (cell now c.value (some ex)) d,
    string_eq.beq_iff k j,
    lasts_mono c.written now later c.ex h,
  )
]

pub in_memory-laws : RedisLaws in_memory
in_memory-laws = record {
  get_set = read-write;
  set_taken = write_taken;
  set_free = write_free;
  get_delete = λ now later d ks j h. read-remove later d ks j;
  get_expire = read-renew;
  get_publish = λ now d c m j. refl;
  get_rpush = λ now d c m j. refl;
  parse_number = count_marks-marks;
  incr_count = count_up_count;
  get_incr = read-count_up;
}
