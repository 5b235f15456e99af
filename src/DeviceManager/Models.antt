-- ===== src/DeviceManager/Models.antt =====
-- db/models.py: the rows of the tables. `last_seen_at`, `updated_at` and the checksums and notes of
-- a firmware are left out. A JSON value is the text of it.
use g_io_t_edge_gateway.Prelude.{Bool, Option, String, false, nat_eq, string_eq, true, ℕ}

pub data DeviceStatus : Type 0 where
  registered provisioned active inactive decommissioned : DeviceStatus

abbrev pub is_registered : DeviceStatus → Bool
is_registered registered = true
is_registered provisioned = false
is_registered active = false
is_registered inactive = false
is_registered decommissioned = false

abbrev pub is_active : DeviceStatus → Bool
is_active registered = false
is_active provisioned = false
is_active active = true
is_active inactive = false
is_active decommissioned = false

abbrev pub is_decommissioned : DeviceStatus → Bool
is_decommissioned registered = false
is_decommissioned provisioned = false
is_decommissioned active = false
is_decommissioned inactive = false
is_decommissioned decommissioned = true

pub data ProvisioningStatus : Type 0 where
  pending approved rejected : ProvisioningStatus

abbrev pub is_pending : ProvisioningStatus → Bool
is_pending pending = true
is_pending approved = false
is_pending rejected = false

pub record Device : Type 0 where
  pub id : String
  pub name : String
  pub device_type : String
  pub status : DeviceStatus
  pub firmware_version : String
  pub metadata : String
  pub created_at : ℕ

pub record ProvisioningRequest : Type 0 where
  pub id : String
  pub device_id : String
  pub status : ProvisioningStatus
  pub requested_at : ℕ
  pub approved_at : Option ℕ
  pub approved_by : Option String
