-- ===== src/Prelude/Lists.antt =====
-- Lists measured by native numbers, predicates over lists, and a filter by a Boolean test.
use Prim.Native.Nat.{ℕ, zero, suc, ◌+◌, ◌-◌}
use mathlib.Core.Path.{◌≡◌, refl, subst, sym}
use mathlib.Core.Bool.{Bool, true, false, false, ◌||◌, false≢true}
use mathlib.Core.List.{List, [], ◌∷◌, ◌++◌}
use mathlib.Core.Logic.{◌⊎◌, inl, inr}
use native.Mathlib.Omega.{arith}
use g_io_t_edge_gateway.Prelude.Equality.{==_eq, Eq, ◌==◌}
use g_io_t_edge_gateway.Prelude.Tests.{Bool-cases, if◌then◌else◌}

module _ {ℓ} {A : Type ℓ} where
  abbrev pub length : List A → ℕ
  length [] = 0
  length (x ∷ xs) = suc (length xs)

  -- `not xs`.
  abbrev pub is_empty : List A → Bool
  is_empty [] = true
  is_empty (x ∷ xs) = false

  pub is_empty_lem : (xs : List A) → is_empty xs ≡ true → xs ≡ []
  is_empty_lem [] h = refl
  is_empty_lem (x ∷ xs) h = cc

  pub length-append : (xs ys : List A) → length (xs ++ ys) ≡ length xs + length ys
  length-append [] ys = omega arith
  length-append (x ∷ xs) ys = omega (arith, length-append xs ys)

  abbrev pub drop : ℕ → List A → List A
  drop zero xs = xs
  drop (suc n) [] = []
  drop (suc n) (x ∷ xs) = drop n xs

  pub length-drop : (n : ℕ) (xs : List A) → length (drop n xs) ≡ length xs - n
  length-drop zero xs = omega arith
  length-drop (suc n) [] = omega arith
  length-drop (suc n) (x ∷ xs) = omega (arith, length-drop n xs)

  abbrev pub All {κ} : (A → Type κ) → List A → Type κ
  All P [] = Unit
  All P (x ∷ xs) = P x × All P xs

  abbrev pub Any : (A → Type 0) → List A → Type 0
  Any P [] = ⊥
  Any P (x ∷ xs) = P x ⊎ Any P xs

  pub All-map : {P Q : A → Type 0} → ((x : A) → P x → Q x) → (xs : List A) → All P xs → All Q xs
  All-map h [] all = tt
  All-map h (x ∷ xs) (p, all) = (h x p, All-map h xs all)

  pub All-both :
      {P Q R : A → Type 0}
      → ((x : A) → P x → Q x → R x)
      → (xs : List A) → All P xs
      → All Q xs
      → All R xs
  All-both h [] all all' = tt
  All-both h (x ∷ xs) (p, all) (q, all') = (h x p q, All-both h xs all all')

  pub Any-map : {P Q : A → Type 0} → ((x : A) → P x → Q x) → (xs : List A) → Any P xs → Any Q xs
  Any-map h [] i = absurd i
  Any-map h (x ∷ xs) (inl p) = inl (h x p)
  Any-map h (x ∷ xs) (inr i) = inr (Any-map h xs i)

  pub Any-append_left : (P : A → Type 0) (xs ys : List A) → Any P xs → Any P (xs ++ ys)
  Any-append_left P [] ys i = absurd i
  Any-append_left P (x ∷ xs) ys (inl p) = inl p
  Any-append_left P (x ∷ xs) ys (inr i) = inr (Any-append_left P xs ys i)

  pub Any-append_right : (P : A → Type 0) (xs ys : List A) → Any P ys → Any P (xs ++ ys)
  Any-append_right P [] ys i = i
  Any-append_right P (x ∷ xs) ys i = inr (Any-append_right P xs ys i)

  -- Every element of the first list is one of the second.
  abbrev pub Within : List A → List A → Type (1 ⊔ ℓ)
  Within xs ys = (P : A → Type 0) → Any P xs → Any P ys

  pub All-append : (P : A → Type 0) (xs ys : List A) → All P xs → All P ys → All P (xs ++ ys)
  All-append P [] ys all all' = all'
  All-append P (x ∷ xs) ys (p, all) all' = (p, All-append P xs ys all all')

  pub Any-witness : {P : A → Type 0} (xs : List A) → Any P xs → (x : A) × P x
  Any-witness [] h = absurd h
  Any-witness (x ∷ xs) (inl h) = (x, h)
  Any-witness (x ∷ xs) (inr h) = Any-witness xs h

  -- A list comprehension with an `if`.
  unfoldable pub keep : (A → Bool) → List A → List A
  keep p [] = []
  keep p (x ∷ xs) = let rest = keep p xs in if p x then x ∷ rest else rest

module _ {ℓ} {A : Type ℓ} ⦃e : Eq A⦄ where
  -- `a in xs`.
  unfoldable pub contains : A → List A → Bool
  contains a [] = false
  contains a (x ∷ xs) = x == a || contains a xs

  pub All-contains {κ} :
      (P : A → Type κ) (a : A) (xs : List A) → All P xs → contains a xs ≡ true → P a
  unfolding contains
  All-contains P a [] h c = absurd (false≢true c)
  All-contains P a (x ∷ xs) h c = elim (Bool-cases (x == a)) [
    | inl same ↦ subst P (==_eq x a same) h.0
    | inr differ ↦ All-contains P a xs h.1 (ground arith)
  ]

pub All-keep {ℓ} : {A : Type ℓ} (p : A → Bool) (xs : List A) → All (λ x. p x ≡ true) (keep p xs)
unfolding keep
All-keep p [] = tt
All-keep p (x ∷ xs) = elim (Bool-cases (p x)) [
  | inl e ↦ rw e (e, All-keep p xs)
  | inr e ↦ rw e (All-keep p xs)
]

pub Any-All :
    {A : Type 0} (P : A → Type 0) {x : A} (xs : List A) → Any (λ y. x ≡ y) xs → All P xs → P x
Any-All P [] i all = absurd i
Any-All P (y ∷ xs) (inl e) (p, all) = subst P (sym e) p
Any-All P (y ∷ xs) (inr i) (p, all) = Any-All P xs i all
