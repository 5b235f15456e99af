-- ===== src/DeviceManager/Service.antt =====
-- repositories/device_repo.py and services/device_service.py: the operations on the devices. A
-- session keeps one object per row, and `refresh` reads it again, so after the UPDATE the variable
-- `existing` shows the new row too.
use g_io_t_edge_gateway.Prelude.{
  Bool, List, Option, String, [], false, if◌then◌else◌, nat_eq, none, not, some, string_eq, true, ℕ,
  ◌&&◌, ◌++◌, ◌∷◌,
}
use g_io_t_edge_gateway.DeviceManager.Table.{find_by, update_by}
use g_io_t_edge_gateway.DeviceManager.Models.{
  Device, DeviceStatus, ProvisioningRequest, decommissioned, is_active, is_decommissioned,
  registered,
}

-- How an operation ends: with a value, with `None` (or `False`), with a ValueError, or with another
-- exception.
pub data Answer (A : Type 0) : Type 0 where
  done : A → Answer A
  missing refused raised : Answer A

-- An entry of the stream `device_events`; its time and payload are left out.
pub record Event : Type 0 where
  pub event_type : String
  pub device_id : String

-- A call of `inc` or `dec` on the gauge ACTIVE_DEVICES, with its label.
pub data GaugeCall : Type 0 where
  inc dec : String → GaugeCall

pub record Service : Type 0 where
  pub devices : List Device
  pub requests : List ProvisioningRequest
  pub events : List Event
  pub gauge : List GaugeCall

pub record DeviceData : Type 0 where
  pub name : String
  pub device_type : String
  pub firmware_version : String
  pub metadata : String

-- The fields that a body sets; `none` where it does not. An explicit null of `metadata` is the text
-- "null" of the JSON value that the column then has; `sets_null` says whether a field of another
-- column is an explicit null.
pub record Updates : Type 0 where
  pub name : Option String
  pub device_type : Option String
  pub status : Option DeviceStatus
  pub firmware_version : Option String
  pub metadata : Option String
  pub sets_null : Bool

-- The service after a write of its tables, with the answer if the XADD that follows succeeds; one
-- that fails raises.
abbrev pub emit : {A : Type 0} → Bool → Event → Service × A → Service × Answer A
emit true event (s, a) = (record s { events = s.events ++ event ∷ [] }, done a)
emit false event (s, a) = (s, raised)

abbrev pub or_old : {A : Type 0} → Option A → A → A
or_old none old = old
or_old (some new) old = new

-- Device(**device_data), with the defaults of the columns.
abbrev pub new_device : String → ℕ → DeviceData → Device
new_device id now data' = record {
  id = id;
  name = data'.name;
  device_type = data'.device_type;
  status = registered;
  firmware_version = data'.firmware_version;
  metadata = data'.metadata;
  created_at = now;
}

-- The new id comes from `uuid4`; the primary key refuses one that is taken.
unfoldable pub create_device : Bool → String → ℕ → DeviceData → Service → Service × Answer Device
create_device redis_up id now data' s = elim (find_by (λ d. d.id) id s.devices) [
  | some taken ↦ (s, raised)
  | none ↦
      let device = new_device id now data' in
      emit redis_up (record { event_type = "device_created"; device_id = id })
        (record s { devices = s.devices ++ device ∷ [] }, device)
]

abbrev pub set_values : Updates → Device → Device
set_values u d = record d {
  name = or_old u.name d.name;
  device_type = or_old u.device_type d.device_type;
  status = or_old u.status d.status;
  firmware_version = or_old u.firmware_version d.firmware_version;
  metadata = or_old u.metadata d.metadata;
}

-- The calls on the gauge after an update: `device` is the new row, and so is `existing`.
abbrev pub count_active : Option DeviceStatus → Device → Device → Service → Service
count_active none existing device s = s
count_active (some new_status) existing device s =
    if is_active new_status
    then record s { gauge = s.gauge ++ inc device.device_type ∷ [] }
    else if is_active existing.status
    then record s { gauge = s.gauge ++ dec device.device_type ∷ [] }
    else s

abbrev pub counted_update : Updates → Service × Answer Device → Service × Answer Device
counted_update u (s, done device) = (count_active u.status device device s, done device)
counted_update u (s, missing) = (s, missing)
counted_update u (s, refused) = (s, refused)
counted_update u (s, raised) = (s, raised)

-- After the UPDATE: the new row, the event and the gauge.
abbrev pub updated : Bool → String → Updates → Service → Service × Answer Device
updated redis_up id u s = elim (find_by (λ d. d.id) id s.devices) [
  | none ↦ (s, missing)
  | some device ↦
      counted_update u
        (emit redis_up (record { event_type = "device_updated"; device_id = id }) (s, device))
]

-- `accepts` says whether the columns' types and lengths take the values; none of the columns but
-- `metadata` takes a null, which fails at the UPDATE.
abbrev pub is_storable : (Updates → Bool) → Updates → Bool
is_storable accepts u = accepts u && not u.sets_null

unfoldable pub update_device :
    (Updates → Bool) → Bool → String → Updates → Service → Service × Answer Device
update_device accepts redis_up id u s = elim (find_by (λ d. d.id) id s.devices) [
  | none ↦ (s, missing)
  | some existing ↦
      if is_decommissioned existing.status
      then (s, refused)
      else if is_storable accepts u
      then updated redis_up id u
          (record s { devices = update_by (λ d. d.id) id (set_values u) s.devices })
      else (s, raised)
]

abbrev pub decommission : Device → Device
decommission d = record d { status = decommissioned }

-- After the event: the last `dec` is guarded by the status of `existing`, which is the row as it is
-- then.
abbrev pub counted_delete : String → Service × Answer Bool → Service × Answer Bool
counted_delete id (s, done deleted) = elim (find_by (λ d. d.id) id s.devices) [
  | none ↦ (s, done deleted)
  | some existing ↦
      if is_active existing.status
      then (record s { gauge = s.gauge ++ dec existing.device_type ∷ [] }, done deleted)
      else (s, done deleted)
]
counted_delete id (s, missing) = (s, missing)
counted_delete id (s, refused) = (s, refused)
counted_delete id (s, raised) = (s, raised)

unfoldable pub delete_device : Bool → String → Service → Service × Answer Bool
delete_device redis_up id s = elim (find_by (λ d. d.id) id s.devices) [
  | none ↦ (s, missing)
  | some existing ↦
      if is_active existing.status
      then (s, refused)
      else if is_decommissioned existing.status
      then (s, refused)
      else counted_delete id (
          emit redis_up (record { event_type = "device_decommissioned"; device_id = id })
            (record s { devices = update_by (λ d. d.id) id decommission s.devices }, true))
]
