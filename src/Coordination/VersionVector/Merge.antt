-- ===== src/Coordination/VersionVector/Merge.antt =====
-- version_vector.py, the updates: `increment`, `merge`, and what a comparison says after them.
use g_io_t_edge_gateway.Prelude.{
  Bool-cases, String, [], arith, false, if◌then◌else◌, inl, inr, max, nat_eq, string_eq, true, ℕ,
  ◌+◌, ◌==◌, ◌↔◌, ◌∷◌, ◌≡◌, ◌≤◌,
}
use g_io_t_edge_gateway.Dict.{Dict, IsDict, get_or, insert}
use g_io_t_edge_gateway.Dict.Laws.{get_or-lookup, insert-IsDict, lookup-insert}
use g_io_t_edge_gateway.Coordination.VersionVector.{
  VersionVector, at, dominates, equals, increment, merge, merge_items,
}
use g_io_t_edge_gateway.Coordination.VersionVector.Order.{dominates_iff, equals_iff}

pub get_or-insert :
    (k n : String) (x d : ℕ) (m : Dict String ℕ)
    → get_or n d (insert k x m) ≡ (if k == n then x else get_or n d m)
get_or-insert k n x d m =
    ground (arith, get_or-lookup n d (insert k x m), get_or-lookup n d m, lookup-insert k n x m)

-- `increment` adds one to the node's counter, returns the new value and changes no other counter.
pub increment_lem :
    (v : VersionVector) (n k : String)
    → ((increment v n).1 ≡ at v n + 1)
      × (at (increment v n).0 k ≡ (if n == k then at v n + 1 else at v k))
unfolding increment
increment_lem v n k = (
  ground (arith, get_or-insert n n (at v n + 1) 0 v.clock, string_eq.beq_iff n n),
  get_or-insert n k (at v n + 1) 0 v.clock,
)

at-merge_items :
    (v : VersionVector) (items : Dict String ℕ) (n : String)
    → IsDict items
    → at (merge_items v items) n ≡ max (at v n) (get_or n 0 items)
unfolding merge_items get_or
at-merge_items v [] n h = omega arith
at-merge_items v ((k, x) ∷ items) n h = ground (
  arith,
  at-merge_items (record v { clock = insert k (max (at v k) x) v.clock }) items n h.1,
  get_or-insert k n (max (at v k) x) 0 v.clock,
  get_or-lookup n 0 items,
  string_eq.beq_iff k n,
)

-- `merge` takes the maximum at every node.
pub at-merge :
    (v w : VersionVector) (n : String) → IsDict w.clock → at (merge v w) n ≡ max (at v n) (at w n)
unfolding merge
at-merge v w n h = at-merge_items v w.clock n h

-- An increment makes a vector that dominates the old one, and that the old one does not.
pub dominates-increment :
    (v : VersionVector) (n : String)
    → (dominates (increment v n).0 v ≡ true) × (dominates v (increment v n).0 ≡ false)
dominates-increment v n =
    let own = (increment_lem v n n).1 in
    let here : at (increment v n).0 n ≡ at v n + 1 = ground (arith, own, string_eq.beq_iff n n) in
    (
      (dominates_iff (increment v n).0 v).1 (
        λ k. ground (arith, (increment_lem v n k).1, string_eq.beq_iff n k),
        (n, omega (arith, here)),
      ),
      elim (Bool-cases (dominates v (increment v n).0)) [
        | inl h ↦ absurd (omega (arith, here, ((dominates_iff v (increment v n).0).0 h).0 n))
        | inr miss ↦ miss
      ],
    )

-- `merge` is the least upper bound: a vector is at least the merge at every node exactly when it
-- is at least both vectors.
pub merge_least :
    (v w u : VersionVector)
    → IsDict w.clock
    → ((n : String) → at (merge v w) n ≤ at u n)
      ↔ (((n : String) → at v n ≤ at u n) × ((n : String) → at w n ≤ at u n))
merge_least v w u h = (
  λ below. (
    λ n. omega (arith, below n, at-merge v w n h),
    λ n. omega (arith, below n, at-merge v w n h),
  ),
  λ (p, q) n. omega (arith, p n, q n, at-merge v w n h),
)

-- Merging in either order gives equal vectors.
pub merge_comm :
    (v w : VersionVector) → IsDict v.clock → IsDict w.clock → equals (merge v w) (merge w v) ≡ true
merge_comm v w hv hw =
    (equals_iff (merge v w) (merge w v)).1 λ n. omega (arith, at-merge v w n hw, at-merge w v n hv)

-- A node that merges a received vector into its own and then counts the event itself has a vector
-- that dominates both, so the two are never found concurrent with it.
pub receive_dominates :
    (v w : VersionVector) (n : String)
    → IsDict w.clock
    → (dominates (increment (merge v w) n).0 v ≡ true)
      × (dominates (increment (merge v w) n).0 w ≡ true)
receive_dominates v w n h =
    let own = (increment_lem (merge v w) n n).1 in
    let here : at (increment (merge v w) n).0 n ≡ at (merge v w) n + 1 =
      ground (arith, own, string_eq.beq_iff n n) in
    let grows : (k : String) → at (merge v w) k ≤ at (increment (merge v w) n).0 k =
      λ k. ground (arith, (increment_lem (merge v w) n k).1, string_eq.beq_iff n k) in
    (
      (dominates_iff (increment (merge v w) n).0 v).1 (
        λ k. omega (arith, at-merge v w k h, grows k),
        (n, omega (arith, here, at-merge v w n h)),
      ),
      (dominates_iff (increment (merge v w) n).0 w).1 (
        λ k. omega (arith, at-merge v w k h, grows k),
        (n, omega (arith, here, at-merge v w n h)),
      ),
    )

-- `dominates` is a strict partial order: transitive, and never true both ways round.
pub dominates_trans :
    (u v w : VersionVector)
    → dominates u v ≡ true
    → dominates v w ≡ true
    → (dominates u w ≡ true) × (dominates w u ≡ false)
dominates_trans u v w h k =
    let (uv, (n, more)) = (dominates_iff u v).0 h in
    let (vw, _) = (dominates_iff v w).0 k in
    (
      (dominates_iff u w).1 ((λ m. omega (arith, uv m, vw m)), (n, omega (arith, vw n))),
      elim (Bool-cases (dominates w u)) [
        | inl back ↦ absurd (omega (arith, ((dominates_iff w u).0 back).0 n, vw n))
        | inr miss ↦ miss
      ],
    )

-- The vectors that the service makes keep every node once.
pub increment-IsDict :
    (v : VersionVector) (n : String) → IsDict v.clock → IsDict (increment v n).0.clock
unfolding increment
increment-IsDict v n h = insert-IsDict n (at v n + 1) v.clock h
