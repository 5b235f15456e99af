-- ===== src/DeviceManager/Statistics.antt =====
-- repositories/device_repo.py: the numbers of devices by type and by status.
use g_io_t_edge_gateway.Prelude.{
  List, String, [], ap, arith, if◌then◌else◌, keep, length, nat_eq, refl, string_eq, suc, ℕ, ◌+◌,
  ◌==◌, ◌∙◌, ◌∷◌, ◌≡◌,
}
use g_io_t_edge_gateway.Dict.{Dict, get_or, insert, values}
use g_io_t_edge_gateway.DeviceManager.Models.{
  Device, DeviceStatus, active, decommissioned, inactive, provisioned, registered,
}

abbrev pub status_value : DeviceStatus → String
status_value registered = "registered"
status_value provisioned = "provisioned"
status_value active = "active"
status_value inactive = "inactive"
status_value decommissioned = "decommissioned"

-- SELECT field, count(id) … GROUP BY field, as a dict.
unfoldable pub count_by : (Device → String) → List Device → Dict String ℕ
count_by field [] = []
count_by field (d ∷ ds) =
    let rest = count_by field ds in insert (field d) (suc (get_or (field d) 0 rest)) rest

abbrev pub total : List ℕ → ℕ
total [] = 0
total (n ∷ ns) = n + total ns

pub record Stats : Type 0 where
  pub by_type : Dict String ℕ
  pub by_status : Dict String ℕ
  pub total : ℕ

unfoldable pub get_stats : List Device → Stats
get_stats devices =
    let by_type = count_by (λ d. d.device_type) devices in
    record {
      by_type = by_type;
      by_status = count_by (λ d. status_value d.status) devices;
      total = total (values by_type);
    }

sum-insert :
    (k : String) (m : Dict String ℕ)
    → total (values (insert k (suc (get_or k 0 m)) m)) ≡ suc (total (values m))
unfolding insert get_or
sum-insert k [] = omega arith
sum-insert k ((j, n) ∷ m) = ground (arith, sum-insert k m)

count_by-total :
    (field : Device → String) (devices : List Device)
    → total (values (count_by field devices)) ≡ length devices
unfolding count_by
count_by-total field [] = refl
count_by-total field (d ∷ ds) =
    sum-insert (field d) (count_by field ds) ∙ ap suc (count_by-total field ds)

get_or-insert :
    (k j : String) (n : ℕ) (m : Dict String ℕ)
    → get_or k 0 (insert j n m) ≡ (if j == k then n else get_or k 0 m)
unfolding get_or insert
get_or-insert k j n [] = ground arith
get_or-insert k j n ((i, v) ∷ m) = ground (
  arith,
  get_or-insert k j n m,
  string_eq.beq_iff i j,
  string_eq.beq_iff i k,
  string_eq.beq_iff j k,
)

count_by-lem :
    (field : Device → String) (k : String) (devices : List Device)
    → get_or k 0 (count_by field devices) ≡ length (keep (λ d. field d == k) devices)
unfolding count_by keep get_or
count_by-lem field k [] = refl
count_by-lem field k (d ∷ ds) = ground (
  arith,
  get_or-insert k (field d) (suc (get_or (field d) 0 (count_by field ds))) (count_by field ds),
  count_by-lem field k ds,
  string_eq.beq_iff (field d) k,
)

-- The statistics count the devices of each type and of each status, and the total is the number of
-- all devices, which the counts by status add up to as well.
pub get_stats_lem :
    (devices : List Device) (k : String)
    → (get_or k 0 (get_stats devices).by_type ≡ length (keep (λ d. d.device_type == k) devices))
      × (get_or k 0 (get_stats devices).by_status
          ≡ length (keep (λ d. status_value d.status == k) devices))
      × ((get_stats devices).total ≡ length devices)
      × (total (values (get_stats devices).by_status) ≡ length devices)
unfolding get_stats
get_stats_lem devices k = (
  count_by-lem (λ d. d.device_type) k devices,
  count_by-lem (λ d. status_value d.status) k devices,
  count_by-total (λ d. d.device_type) devices,
  count_by-total (λ d. status_value d.status) devices,
)
