-- ===== src/Coordination/Tests.antt =====
-- The theorems on version vectors at concrete inputs.
pub mod Cluster
mod Leases
use g_io_t_edge_gateway.Prelude.{
  String, [], contains, false, keep, nat_eq, refl, string_eq, true, ◌↔◌, ◌∷◌, ◌≡◌, ◌≤◌,
}
use g_io_t_edge_gateway.Dict.{IsDict, get_or, lookup}
use g_io_t_edge_gateway.Coordination.VersionVector.{
  VersionVector, at, concurrent_with, dominates, equals, increment, merge,
}
use g_io_t_edge_gateway.Coordination.VersionVector.Order.{
  Above, Conflict, concurrent_with_iff, dominates_iff, equals_iff,
}
use g_io_t_edge_gateway.Coordination.VersionVector.Merge.{
  dominates-increment, dominates_trans, merge_least, receive_dominates,
}

abbrev ours : VersionVector
ours = record { clock = ("a", 2) ∷ ("b", 1) ∷ [] }

abbrev theirs : VersionVector
theirs = record { clock = ("b", 3) ∷ ("a", 1) ∷ [] }

ours_conflicts : concurrent_with ours theirs ≡ true
unfolding concurrent_with get_or contains keep
ours_conflicts = refl

theirs-IsDict : IsDict theirs.clock
unfolding lookup
theirs-IsDict = (refl, (refl, tt))

merge_least_example :
    ((n : String) → at (merge ours theirs) n ≤ at ours n)
    ↔ (((n : String) → at ours n ≤ at ours n) × ((n : String) → at theirs n ≤ at ours n))
merge_least_example = merge_least ours theirs ours theirs-IsDict
