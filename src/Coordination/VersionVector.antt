-- ===== src/Coordination/VersionVector.antt =====
-- state/version_vector.py. A missing node counts as 0.
pub mod Order
pub mod Merge
use g_io_t_edge_gateway.Prelude.{
  Bool, List, String, [], contains, false, if◌then◌else◌, keep, ltb, max, nat_eq, not, string_eq,
  true, ℕ, ◌&&◌, ◌++◌, ◌+◌, ◌==◌, ◌||◌, ◌∷◌,
}
use g_io_t_edge_gateway.Dict.{Dict, get_or, insert, keys}

pub record VersionVector : Type 0 where
  pub clock : Dict String ℕ

unfoldable pub new : VersionVector
new = record { clock = [] }

-- `self._clock.get(node_id, 0)`.
abbrev pub at : VersionVector → String → ℕ
at v n = get_or n 0 v.clock

-- The new vector and the new value of the counter.
unfoldable pub increment : VersionVector → String → VersionVector × ℕ
increment v n = let next = record v { clock = insert n (at v n + 1) v.clock } in (next, at next n)

merge_items : VersionVector → Dict String ℕ → VersionVector
merge_items v [] = v
merge_items v ((n, version) ∷ items) =
    merge_items (record v { clock = insert n (max (at v n) version) v.clock }) items

unfoldable pub merge : VersionVector → VersionVector → VersionVector
unfolding merge_items
merge v other = merge_items v other.clock

-- `set(self._clock.keys()) | set(other._clock.keys())`.
all_nodes : VersionVector → VersionVector → List String
all_nodes v other = keys v.clock ++ keep (λ n. not (contains n (keys v.clock))) (keys other.clock)

-- The loop of `dominates`; the flag is `at_least_one_greater`.
dominates_loop : VersionVector → VersionVector → Bool → List String → Bool
dominates_loop v other greater [] = greater
dominates_loop v other greater (n ∷ ns) =
    let rest = dominates_loop v other (greater || ltb (at other n) (at v n)) ns in
    if ltb (at v n) (at other n) then false else rest

unfoldable pub dominates : VersionVector → VersionVector → Bool
unfolding dominates_loop all_nodes
dominates v other = dominates_loop v other false (all_nodes v other)

agree_on : VersionVector → VersionVector → List String → Bool
agree_on v other [] = true
agree_on v other (n ∷ ns) = at v n == at other n && agree_on v other ns

-- `__eq__`.
unfoldable pub equals : VersionVector → VersionVector → Bool
unfolding agree_on all_nodes
equals v other = agree_on v other (all_nodes v other)

unfoldable pub concurrent_with : VersionVector → VersionVector → Bool
unfolding dominates equals
concurrent_with v other = not (dominates v other) && not (dominates other v) && not (equals v other)

unfoldable pub to_dict : VersionVector → Dict String ℕ
to_dict v = v.clock

unfoldable pub from_dict : Dict String ℕ → VersionVector
from_dict d = record { clock = d }
