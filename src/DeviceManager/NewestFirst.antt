-- ===== src/DeviceManager/NewestFirst.antt =====
-- repositories/device_repo.py: an insertion sort in the place of ORDER BY created_at DESC.
use g_io_t_edge_gateway.Prelude.{
  All, Bool, Bool-cases, List, [], arith, if◌then◌else◌, inl, inr, keep, leb, nat_eq, refl,
  string_eq, ℕ, ◌∷◌, ◌≡◌, ◌≤◌,
}
use g_io_t_edge_gateway.DeviceManager.Models.{Device}
use g_io_t_edge_gateway.DeviceManager.Listing.{IsNewestFirst, IsSort, count}

unfoldable pub insert_newest : Device → List Device → List Device
insert_newest d [] = d ∷ []
insert_newest d (e ∷ es) =
    if leb e.created_at d.created_at then d ∷ e ∷ es else e ∷ insert_newest d es

unfoldable pub newest_first : List Device → List Device
newest_first [] = []
newest_first (d ∷ ds) = insert_newest d (newest_first ds)

insert_newest-count :
    (p : Device → Bool) (d : Device) (ds : List Device)
    → count p (insert_newest d ds) ≡ count p (d ∷ ds)
unfolding insert_newest keep
insert_newest-count p d [] = refl
insert_newest-count p d (e ∷ es) = ground (arith, insert_newest-count p d es)

newest_first-count : (p : Device → Bool) (ds : List Device) → count p (newest_first ds) ≡ count p ds
unfolding newest_first keep
newest_first-count p [] = refl
newest_first-count p (d ∷ ds) =
    ground (arith, insert_newest-count p d (newest_first ds), newest_first-count p ds)

insert_newest-All :
    (bound : ℕ) (d : Device) (ds : List Device)
    → d.created_at ≤ bound
    → All (λ e. e.created_at ≤ bound) ds
    → All (λ e. e.created_at ≤ bound) (insert_newest d ds)
unfolding insert_newest
insert_newest-All bound d [] h all = (h, tt)
insert_newest-All bound d (e ∷ es) h (first, rest) =
    elim (Bool-cases (leb e.created_at d.created_at)) [
      | inl older ↦ rw (older, insert_newest) (h, (first, rest))
      | inr newer ↦ rw (newer, insert_newest) (first, insert_newest-All bound d es h rest)
    ]

older-All :
    (bound bound' : ℕ) (ds : List Device)
    → bound ≤ bound'
    → All (λ e. e.created_at ≤ bound) ds
    → All (λ e. e.created_at ≤ bound') ds
older-All bound bound' [] h all = tt
older-All bound bound' (d ∷ ds) h (first, rest) =
    (omega (arith, h, first), older-All bound bound' ds h rest)

insert_newest-IsNewestFirst :
    (d : Device) (ds : List Device) → IsNewestFirst ds → IsNewestFirst (insert_newest d ds)
unfolding insert_newest
insert_newest-IsNewestFirst d [] sorted = (tt, tt)
insert_newest-IsNewestFirst d (e ∷ es) (first, rest) =
    elim (Bool-cases (leb e.created_at d.created_at)) [
      | inl older ↦
          let h : e.created_at ≤ d.created_at = ground (arith, older) in
          rw (older, insert_newest)
            ((h, older-All e.created_at d.created_at es h first), (first, rest))
      | inr newer ↦
          let h : d.created_at ≤ e.created_at = ground (arith, newer) in
          rw (newer, insert_newest)
            (insert_newest-All e.created_at d es h first, insert_newest-IsNewestFirst d es rest)
    ]

newest_first-IsNewestFirst : (ds : List Device) → IsNewestFirst (newest_first ds)
unfolding newest_first
newest_first-IsNewestFirst [] = tt
newest_first-IsNewestFirst (d ∷ ds) =
    insert_newest-IsNewestFirst d (newest_first ds) (newest_first-IsNewestFirst ds)

pub newest_first-IsSort : IsSort newest_first
newest_first-IsSort = record {
  same_rows = newest_first-count;
  in_order = newest_first-IsNewestFirst;
}
