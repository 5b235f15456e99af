-- ===== src/DeviceManager/Firmware.antt =====
-- services/firmware_service.py: the catalog of firmware. Checksums, URLs, notes and times are left
-- out.
use g_io_t_edge_gateway.Prelude.{
  ==_eq, Bool, Bool-cases, List, Option-cases, String, [], ap, arith, false, inl, inr, keep, length,
  nat_eq, none, refl, some, string_eq, subst, true, ℕ, ◌&&◌, ◌++◌, ◌+◌, ◌==◌, ◌∷◌, ◌≡◌, ◌≤◌,
}
use g_io_t_edge_gateway.DeviceManager.Table.{find_by}
use g_io_t_edge_gateway.DeviceManager.Service.{Answer, done, raised, refused}

pub record FirmwareVersion : Type 0 where
  pub id : String
  pub version : String
  pub device_type : String

abbrev pub is_same : String → String → FirmwareVersion → Bool
is_same version device_type f = f.version == version && f.device_type == device_type

-- The rows that the query for a duplicate finds.
unfoldable pub duplicates : String → String → List FirmwareVersion → List FirmwareVersion
duplicates version device_type table = keep (is_same version device_type) table

-- The INSERT, which the primary key may refuse; several duplicates make `scalar_one_or_none` raise.
abbrev pub add_firmware :
    List FirmwareVersion
    → FirmwareVersion
    → List FirmwareVersion
    → List FirmwareVersion × Answer FirmwareVersion
add_firmware [] firmware table = elim (find_by (λ f. f.id) firmware.id table) [
  | some taken ↦ (table, raised)
  | none ↦ (table ++ firmware ∷ [], done firmware)
]
add_firmware (found ∷ []) firmware table = (table, refused)
add_firmware (found ∷ other ∷ rest) firmware table = (table, raised)

unfoldable pub register_firmware :
    String → String → String → List FirmwareVersion → List FirmwareVersion × Answer FirmwareVersion
register_firmware id version device_type table =
    add_firmware (duplicates version device_type table)
      (record { id = id; version = version; device_type = device_type }) table

unfoldable pub register_all : List FirmwareVersion → List FirmwareVersion → List FirmwareVersion
register_all [] table = table
register_all (f ∷ fs) table =
    register_all fs (register_firmware f.id f.version f.device_type table).0

abbrev one_if : Bool → ℕ
one_if true = 1
one_if false = 0

duplicates-append :
    (version device_type : String) (table : List FirmwareVersion) (f : FirmwareVersion)
    → length (duplicates version device_type (table ++ f ∷ []))
      ≡ length (duplicates version device_type table) + one_if (is_same version device_type f)
unfolding duplicates keep
duplicates-append version device_type [] f = ground arith
duplicates-append version device_type (x ∷ table) f =
    ground (arith, duplicates-append version device_type table f)

add_firmware_unique :
    (version device_type : String) (f : FirmwareVersion) (table found : List FirmwareVersion)
    → duplicates f.version f.device_type table ≡ found
    → length (duplicates version device_type table) ≤ 1
    → length (duplicates version device_type (add_firmware found f table).0) ≤ 1
add_firmware_unique version device_type f table (x ∷ []) e h = h
add_firmware_unique version device_type f table (x ∷ y ∷ rest) e h = h
add_firmware_unique version device_type f table [] e h =
    elim (Option-cases (find_by (λ x. x.id) f.id table)) [
      | inr (taken, g) ↦ rw (g, add_firmware) h
      | inl g ↦
          rw (g, add_firmware)
            (elim (Bool-cases (is_same version device_type f)) [
              | inr other ↦
                  omega (arith, h, duplicates-append version device_type table f, no other)
              | inl same ↦
                  omega (
                    arith,
                    duplicates-append version device_type table f,
                    none_yet same,
                    bound same,
                  )
            ])
    ]
  where
    no : is_same version device_type f ≡ false → one_if (is_same version device_type f) ≡ 0
    no other = rw other refl

    bound : is_same version device_type f ≡ true → one_if (is_same version device_type f) ≡ 1
    bound same = rw same refl

    none_yet :
        is_same version device_type f ≡ true → length (duplicates version device_type table) ≡ 0
    none_yet same =
        let v : f.version ≡ version = ==_eq f.version version (ground (arith, same)) in
        let t : f.device_type ≡ device_type =
          ==_eq f.device_type device_type (ground (arith, same)) in
        subst (λ x. length (duplicates x device_type table) ≡ 0) v
          (subst (λ x. length (duplicates f.version x table) ≡ 0) t (ap length e))

register_all_unique :
    (version device_type : String) (fs table : List FirmwareVersion)
    → length (duplicates version device_type table) ≤ 1
    → length (duplicates version device_type (register_all fs table)) ≤ 1
unfolding register_all register_firmware
register_all_unique version device_type [] table h = h
register_all_unique version device_type (f ∷ fs) table h =
    register_all_unique version device_type fs
      (register_firmware f.id f.version f.device_type table).0
      (add_firmware_unique version device_type
        (record { id = f.id; version = f.version; device_type = f.device_type }) table
        (duplicates f.version f.device_type table) refl h)

-- Whatever is registered, in whatever order: no version is twice in the catalog for one type of
-- device.
pub one_firmware :
    (version device_type : String) (fs : List FirmwareVersion)
    → length (duplicates version device_type (register_all fs [])) ≤ 1
unfolding duplicates keep
one_firmware version device_type fs = register_all_unique version device_type fs [] (omega arith)
