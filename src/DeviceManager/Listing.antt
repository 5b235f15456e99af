-- ===== src/DeviceManager/Listing.antt =====
-- repositories/device_repo.py: the queries. `newest_first` is ORDER BY created_at DESC, which says
-- nothing of rows of one time.
use g_io_t_edge_gateway.Prelude.{
  All, Bool, List, Option, String, [], drop, keep, length, nat_eq, none, some, string_eq, suc, true,
  zero, ℕ, ◌&&◌, ◌++◌, ◌+◌, ◌==◌, ◌∷◌, ◌≡◌, ◌≤◌,
}
use g_io_t_edge_gateway.DeviceManager.Models.{Device, DeviceStatus}

module _ {A : Type 0} where
  -- LIMIT.
  abbrev pub take : ℕ → List A → List A
  take zero xs = []
  take (suc n) [] = []
  take (suc n) (x ∷ xs) = x ∷ take n xs

-- `query.where(...)`, where the argument is given. `same_status` is how the database compares a text
-- with the column.
unfoldable pub where_type : Option String → List Device → List Device
where_type none devices = devices
where_type (some wanted) devices = keep (λ d. d.device_type == wanted) devices

unfoldable pub where_status :
    (String → DeviceStatus → Bool) → Option String → List Device → List Device
where_status same_status none devices = devices
where_status same_status (some wanted) devices = keep (λ d. same_status wanted d.status) devices

-- A page, and the number of devices on all pages: two queries, each with its own conditions.
unfoldable pub list_devices :
    (String → DeviceStatus → Bool)
    → (List Device → List Device)
    → Option String
    → Option String
    → ℕ
    → ℕ
    → List Device
    → List Device × ℕ
list_devices same_status newest_first device_type status limit offset devices =
    let query = where_status same_status status (where_type device_type devices) in
    let count_query = where_status same_status status (where_type device_type devices) in
    (take limit (drop offset (newest_first query)), length count_query)

-- The pages of a client that asks for one after another.
abbrev pub pages : (ℕ → List Device × ℕ) → ℕ → ℕ → ℕ → List Device
pages page limit zero offset = []
pages page limit (suc n) offset = (page offset).0 ++ pages page limit n (offset + limit)

abbrev type_matches : Option String → Device → Bool
type_matches none d = true
type_matches (some wanted) d = d.device_type == wanted

abbrev status_matches : (String → DeviceStatus → Bool) → Option String → Device → Bool
status_matches same_status none d = true
status_matches same_status (some wanted) d = same_status wanted d.status

-- What a device must be to be listed.
abbrev pub is_wanted :
    (String → DeviceStatus → Bool) → Option String → Option String → Device → Bool
is_wanted same_status device_type status d =
    type_matches device_type d && status_matches same_status status d

-- How many rows pass a test.
abbrev pub count : (Device → Bool) → List Device → ℕ
count p ds = length (keep p ds)

-- No row is older than one after it.
abbrev pub IsNewestFirst : List Device → Type 0
IsNewestFirst [] = Unit
IsNewestFirst (d ∷ ds) = All (λ e. e.created_at ≤ d.created_at) ds × IsNewestFirst ds

-- ORDER BY created_at DESC gives the rows that it got, in that order.
pub record IsSort (newest_first : List Device → List Device) : Type 0 where
  pub same_rows : (p : Device → Bool) (ds : List Device) → count p (newest_first ds) ≡ count p ds
  pub in_order : (ds : List Device) → IsNewestFirst (newest_first ds)
