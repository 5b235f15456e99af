-- ===== src/DataIngestion/StreamMonitor.antt =====
-- services/stream_monitor.py: the devices seen of late. Times are microseconds; the gauge
-- ACTIVE_DEVICES is a dict from labels to values.
use g_io_t_edge_gateway.Prelude.{
  All, All-keep, Bool, List, String, [], arith, contains, if◌then◌else◌, inl, inr, keep, leb,
  length, nat_eq, refl, string_eq, suc, true, ℕ, ◌+◌, ◌<◌, ◌==◌, ◌∙◌, ◌∷◌, ◌≡◌, ◌⊎◌,
}
use g_io_t_edge_gateway.Dict.{Dict, get_or, insert, keys}
use g_io_t_edge_gateway.Dict.Laws.{get_or-lookup, lookup-insert}

abbrev pub active_window : ℕ
active_window = 60000000

pub record Seen : Type 0 where
  pub device_type : String
  pub at : ℕ

-- `_last_seen`, `_known_types` and the gauge.
pub record StreamMonitor : Type 0 where
  pub last_seen : Dict String Seen
  pub known_types : List String
  pub gauge : Dict String ℕ

unfoldable pub record_device : ℕ → String → String → StreamMonitor → StreamMonitor
record_device now device_id device_type m = record m {
  last_seen = insert device_id (record { device_type = device_type; at = now }) m.last_seen;
}

-- `seen >= cutoff`, where the cutoff is `now - active_window`.
abbrev pub is_fresh : ℕ → String × Seen → Bool
is_fresh now e = leb now (e.1.at + active_window)

-- `Counter(…)`.
unfoldable pub count_types : Dict String Seen → Dict String ℕ
count_types [] = []
count_types ((id, seen) ∷ rest) =
    let counts = count_types rest in
    insert seen.device_type (suc (get_or seen.device_type 0 counts)) counts

-- `set.update` with the keys of a dict.
unfoldable pub add_types : List String → List String → List String
add_types known [] = known
add_types known (t ∷ ts) =
    let rest = add_types known ts in if contains t rest then rest else t ∷ rest

unfoldable pub set_gauges : Dict String ℕ → List String → Dict String ℕ → Dict String ℕ
set_gauges counts [] gauge = gauge
set_gauges counts (t ∷ ts) gauge = insert t (get_or t 0 counts) (set_gauges counts ts gauge)

unfoldable pub update_active_devices : ℕ → StreamMonitor → StreamMonitor
update_active_devices now m =
    let last_seen = keep (is_fresh now) m.last_seen in
    let counts = count_types last_seen in
    let known_types = add_types m.known_types (keys counts) in
    record {
      last_seen = last_seen;
      known_types = known_types;
      gauge = set_gauges counts known_types m.gauge;
    }

-- How many of the devices are of the type.
abbrev pub number_of : String → Dict String Seen → ℕ
number_of t devices = length (keep (λ e. e.1.device_type == t) devices)

count_types_lem :
    (t : String) (devices : Dict String Seen)
    → get_or t 0 (count_types devices) ≡ number_of t devices
unfolding count_types keep get_or
count_types_lem t [] = refl
count_types_lem t ((id, seen) ∷ rest) = ground (
  arith,
  count_types_lem t rest,
  get_or-lookup t 0 (
      insert seen.device_type (suc (get_or seen.device_type 0 (count_types rest)))
        (count_types rest)),
  get_or-lookup t 0 (count_types rest),
  lookup-insert seen.device_type t (suc (get_or seen.device_type 0 (count_types rest)))
      (count_types rest),
  string_eq.beq_iff seen.device_type t,
)

set_gauges_lem :
    (counts : Dict String ℕ) (t : String) (types : List String) (gauge : Dict String ℕ)
    → contains t types ≡ true
    → get_or t 0 (set_gauges counts types gauge) ≡ get_or t 0 counts
unfolding set_gauges contains
set_gauges_lem counts t [] gauge h = cc
set_gauges_lem counts t (x ∷ types) gauge h =
    let rest = set_gauges counts types gauge in
    ground (
      arith,
      h,
      set_gauges_lem counts t types gauge,
      get_or-lookup t 0 (insert x (get_or x 0 counts) rest),
      get_or-lookup t 0 rest,
      lookup-insert x t (get_or x 0 counts) rest,
      string_eq.beq_iff x t,
    )

add_types-known :
    (t : String) (known types : List String)
    → contains t known ≡ true
    → contains t (add_types known types) ≡ true
unfolding add_types contains
add_types-known t known [] h = h
add_types-known t known (x ∷ types) h = ground (arith, add_types-known t known types h)

add_types-new :
    (t : String) (known types : List String)
    → contains t types ≡ true
    → contains t (add_types known types) ≡ true
unfolding add_types contains
add_types-new t known [] h = cc
add_types-new t known (x ∷ types) h =
    ground (arith, h, add_types-new t known types, string_eq.beq_iff x t)

get_or-keys : (t : String) (m : Dict String ℕ) → 0 < get_or t 0 m → contains t (keys m) ≡ true
unfolding get_or contains
get_or-keys t [] h = absurd (omega (arith, h))
get_or-keys t ((j, n) ∷ m) h = ground (arith, h, get_or-keys t m)

-- After an update, the gauge of every type that is known, or that a fresh device has, is the number
-- of the devices of that type seen within the window, 0 included; the stale devices are forgotten.
pub update_active_devices_lem :
    (now : ℕ) (t : String) (m : StreamMonitor)
    → (contains t m.known_types ≡ true) ⊎ (0 < number_of t (keep (is_fresh now) m.last_seen))
    → (get_or t 0 (update_active_devices now m).gauge
        ≡ number_of t (keep (is_fresh now) m.last_seen))
      × All (λ e. is_fresh now e ≡ true) (update_active_devices now m).last_seen
unfolding update_active_devices
update_active_devices_lem now t m known =
    let fresh : Dict String Seen = keep (is_fresh now) m.last_seen in
    let counts : Dict String ℕ = count_types fresh in
    let types : List String = add_types m.known_types (keys counts) in
    let is_type : contains t types ≡ true = elim known [
      | inl old ↦ add_types-known t m.known_types (keys counts) old
      | inr here' ↦
          add_types-new t m.known_types (keys counts)
            (get_or-keys t counts (rw (count_types_lem t fresh) here'))
    ] in
    (
      set_gauges_lem counts t types m.gauge is_type ∙ count_types_lem t fresh,
      All-keep (is_fresh now) m.last_seen,
    )
