-- ===== src/Coordination/VersionVector/Order.antt =====
-- version_vector.py, the comparisons: `dominates`, `__eq__`, `concurrent_with`.
use g_io_t_edge_gateway.Prelude.{
  ==_eq, All, All-contains, Any, Any-witness, Bool, Bool-cases, List, String, [], arith, contains,
  false, inl, inr, keep, ltb, nat_eq, not, refl, string_eq, true, ℕ, ◌++◌, ◌<◌, ◌==◌, ◌||◌, ◌↔◌,
  ◌∷◌, ◌≡◌, ◌≤◌, ◌⊎◌,
}
use g_io_t_edge_gateway.Dict.{Dict, get_or, keys}
use g_io_t_edge_gateway.Coordination.VersionVector.{
  VersionVector, agree_on, all_nodes, at, concurrent_with, dominates, dominates_loop, equals,
}

contains-append :
    (n : String) (xs ys : List String) → contains n (xs ++ ys) ≡ (contains n xs || contains n ys)
unfolding contains
contains-append n [] ys = refl
contains-append n (x ∷ xs) ys = ground (arith, contains-append n xs ys)

contains-keep :
    (n : String) (p : String → Bool) (xs : List String)
    → p n ≡ true
    → contains n (keep p xs) ≡ contains n xs
unfolding contains keep
contains-keep n p [] h = refl
contains-keep n p (x ∷ xs) h = elim (Bool-cases (x == n)) [
  | inl same ↦ ground (arith, contains-keep n p xs h, ==_eq x n same)
  | inr differ ↦ ground (arith, contains-keep n p xs h)
]

absent : (n : String) (m : Dict String ℕ) → contains n (keys m) ≡ false → get_or n 0 m ≡ 0
unfolding contains get_or
absent n [] h = refl
absent n ((k, v) ∷ m) h = ground (arith, absent n m)

outside :
    (v w : VersionVector) (n : String)
    → contains n (all_nodes v w) ≡ false
    → (at v n ≡ 0) × (at w n ≡ 0)
unfolding all_nodes
outside v w n h = elim (Bool-cases (contains n (keys v.clock))) [
  | inl there ↦ ground (
    arith,
    contains-append n (keys v.clock) (keep (λ k. not (contains k (keys v.clock))) (keys w.clock)),
  )
  | inr gone ↦ ground (
    arith,
    contains-append n (keys v.clock) (keep (λ k. not (contains k (keys v.clock))) (keys w.clock)),
    contains-keep n (λ k. not (contains k (keys v.clock))) (keys w.clock),
    absent n v.clock,
    absent n w.clock,
  )
]

-- The loops see every node at which either vector is not 0.
everywhere :
    (v w : VersionVector) (P : String → Type 0)
    → ((n : String) → at v n ≡ 0 → at w n ≡ 0 → P n)
    → All P (all_nodes v w)
    → (n : String) → P n
everywhere v w P zeros h n = elim (Bool-cases (contains n (all_nodes v w))) [
  | inl there ↦ All-contains P n (all_nodes v w) h there
  | inr gone ↦ zeros n (outside v w n gone).0 (outside v w n gone).1
]

abbrev Exceeds : VersionVector → VersionVector → String → Type 0
Exceeds v w n = at w n < at v n

abbrev Covers : VersionVector → VersionVector → String → Type 0
Covers v w n = at w n ≤ at v n

-- What the loop of `dominates` answers, whatever the order of the nodes.
loop_true :
    (v w : VersionVector) (g : Bool) (ns : List String)
    → dominates_loop v w g ns ≡ true
    → All (Covers v w) ns × ((g ≡ true) ⊎ Any (Exceeds v w) ns)
unfolding dominates_loop
loop_true v w g [] h = (tt, inl h)
loop_true v w g (n ∷ ns) h = ground (arith, loop_true v w (g || ltb (at w n) (at v n)) ns)

loop_false :
    (v w : VersionVector) (g : Bool) (ns : List String)
    → dominates_loop v w g ns ≡ false
    → Any (Exceeds w v) ns ⊎ ((g ≡ false) × All (Covers w v) ns)
unfolding dominates_loop
loop_false v w g [] h = inr (h, tt)
loop_false v w g (n ∷ ns) h = ground (arith, loop_false v w (g || ltb (at w n) (at v n)) ns)

agree_true :
    (v w : VersionVector) (ns : List String)
    → agree_on v w ns ≡ true
    → All (λ n. at v n ≡ at w n) ns
unfolding agree_on
agree_true v w [] h = tt
agree_true v w (n ∷ ns) h = ground (arith, agree_true v w ns)

agree_of :
    (v w : VersionVector) (ns : List String)
    → ((n : String) → at v n ≡ at w n)
    → agree_on v w ns ≡ true
unfolding agree_on
agree_of v w [] h = refl
agree_of v w (n ∷ ns) h = ground (arith, h n, agree_of v w ns h)

-- `v` is at least `w` at every node, and above it at some node.
abbrev pub Above : VersionVector → VersionVector → Type 0
Above v w = ((n : String) → Covers v w n) × ((n : String) × Exceeds v w n)

Above-of : (v w : VersionVector) → dominates v w ≡ true → Above v w
unfolding dominates
Above-of v w h =
    let (all, some_greater) = loop_true v w false (all_nodes v w) h in
    (
      everywhere v w (Covers v w) (λ n p q. omega arith) all,
      Any-witness (all_nodes v w) (ground arith),
    )

not_above_of :
    (v w : VersionVector)
    → dominates v w ≡ false
    → ((n : String) × Exceeds w v n) ⊎ ((n : String) → Covers w v n)
unfolding dominates
not_above_of v w h = elim (loop_false v w false (all_nodes v w) h) [
  | inl less ↦ inl (Any-witness (all_nodes v w) less)
  | inr (_, all) ↦ inr (everywhere v w (Covers w v) (λ n p q. omega arith) all)
]

-- `dominates` answers true exactly when `v` is at least `w` at every node and above it at one.
pub dominates_iff : (v w : VersionVector) → (dominates v w ≡ true) ↔ Above v w
dominates_iff v w = (Above-of v w, complete)
  where
    complete : Above v w → dominates v w ≡ true
    complete (all, (n, more)) = elim (Bool-cases (dominates v w)) [
      | inl yes' ↦ yes'
      | inr miss ↦ elim (not_above_of v w miss) [
        | inl (k, less) ↦ absurd (omega (arith, all k))
        | inr others ↦ absurd (omega (arith, others n))
      ]
    ]

-- `==` answers true exactly when the vectors agree at every node, a missing one counting as 0.
pub equals_iff : (v w : VersionVector) → (equals v w ≡ true) ↔ ((n : String) → at v n ≡ at w n)
unfolding equals
equals_iff v w = (
  λ h.
      everywhere v w (λ n. at v n ≡ at w n) (λ n p q. omega arith)
        (agree_true v w (all_nodes v w) h),
  agree_of v w (all_nodes v w),
)

-- Each vector is above the other at some node.
abbrev pub Conflict : VersionVector → VersionVector → Type 0
Conflict v w = ((n : String) × Exceeds v w n) × ((n : String) × Exceeds w v n)

Conflict-not_dominates : (v w : VersionVector) → Conflict v w → dominates v w ≡ false
Conflict-not_dominates v w (_, (n, less)) = elim (Bool-cases (dominates v w)) [
  | inl h ↦ absurd (omega (arith, (Above-of v w h).0 n))
  | inr miss ↦ miss
]

Conflict-not_equals : (v w : VersionVector) → Conflict v w → equals v w ≡ false
Conflict-not_equals v w (_, (n, less)) = elim (Bool-cases (equals v w)) [
  | inl h ↦ absurd (omega (arith, (equals_iff v w).0 h n))
  | inr miss ↦ miss
]

Conflict-of :
    (v w : VersionVector)
    → dominates v w ≡ false
    → dominates w v ≡ false
    → equals v w ≡ false
    → Conflict v w
Conflict-of v w p q r = elim (not_above_of v w p) [
  | inl (n, less) ↦ elim (not_above_of w v q) [
    | inl (m, more) ↦ ((m, more), (n, less))
    | inr covers ↦ absurd (omega (arith, covers n))
  ]
  | inr covered ↦ elim (not_above_of w v q) [
    | inl (m, more) ↦ absurd (omega (arith, covered m))
    | inr covers ↦ cc (r, (equals_iff v w).1 (λ n. omega (arith, covered n, covers n)))
  ]
]

-- `concurrent_with` answers true exactly when each vector is above the other at some node: the
-- updates are independent.
pub concurrent_with_iff : (v w : VersionVector) → (concurrent_with v w ≡ true) ↔ Conflict v w
unfolding concurrent_with
concurrent_with_iff v w = (
  λ h. Conflict-of v w (ground arith) (ground arith) (ground arith),
  λ c. ground (
    arith,
    Conflict-not_dominates v w c,
    Conflict-not_dominates w v (c.1, c.0),
    Conflict-not_equals v w c,
  ),
)
