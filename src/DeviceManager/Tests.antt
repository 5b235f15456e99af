-- ===== src/DeviceManager/Tests.antt =====
-- The device manager at concrete inputs.
use g_io_t_edge_gateway.Prelude.{
  All, Bool, List, String, [], arith, false, nat_eq, none, not, refl, some, string_eq, true, ◌==◌,
  ◌∷◌, ◌≡◌, ◌≤◌,
}
use g_io_t_edge_gateway.DeviceManager.Firmware.{FirmwareVersion}
use g_io_t_edge_gateway.DeviceManager.Rollouts.{RolloutJson}
use g_io_t_edge_gateway.DeviceManager.Routers.{handle, null_metadata_stored, put_device}
use g_io_t_edge_gateway.DeviceManager.Table.{find_by, update_by}
use g_io_t_edge_gateway.DeviceManager.Models.{
  Device, DeviceStatus, active, decommissioned, provisioned, registered,
}
use g_io_t_edge_gateway.DeviceManager.Service.{
  DeviceData, Service, Updates, create_device, delete_device, inc, new_device, raised, refused,
  set_values, update_device,
}
use g_io_t_edge_gateway.DeviceManager.Provisioning.{
  approve_provisioning, count_pending, creates, empty, here, next, request_provisioning, requests,
  updates,
}
use g_io_t_edge_gateway.DeviceManager.Lifecycle.{Life, phase, status_of}
use g_io_t_edge_gateway.DeviceManager.Refines.{Step-Life, one_pending, retired_stays}
use g_io_t_edge_gateway.DeviceManager.Gauge.{IsInc, gauge_never_falls}
use g_io_t_edge_gateway.DeviceManager.Race.{raced, two_pending}
use g_io_t_edge_gateway.DeviceManager.Statistics.{status_value}
use g_io_t_edge_gateway.DeviceManager.Revival.{approval_revives, asked, granted, retired}

abbrev accepts_all : Updates → Bool
accepts_all u = true

abbrev body : DeviceData
body = record {
  name = "hall";
  device_type = "thermostat";
  firmware_version = "1.0.0";
  metadata = "{}";
}

abbrev one_device : Service
one_device = (create_device true "d1" 10 body empty).0

abbrev requested : Service
requested = asked "r1" "d1" 20 one_device

abbrev to_active : Updates
to_active = record {
  name = none;
  device_type = none;
  status = some active;
  firmware_version = none;
  metadata = none;
  sets_null = false;
}

abbrev activated : Service
activated = (update_device accepts_all true "d1" to_active one_device).0

-- PUT takes an active device to `decommissioned`, which DELETE refuses.
abbrev put_aside : Service
put_aside =
    (update_device accepts_all true "d1" (record to_active { status = some decommissioned })
      activated).0

put_aside-phase :
    (phase "d1" put_aside ≡ (some decommissioned, 0))
    × ((delete_device true "d1" activated).1 ≡ refused)
    × (put_aside.gauge ≡ inc "thermostat" ∷ [])
unfolding create_device update_device delete_device find_by update_by count_pending
put_aside-phase = (refl, refl, refl)

Step-Life_example : Life (phase "d1" one_device) (phase "d1" requested)
Step-Life_example = Step-Life {accepts = accepts_all} "d1" (requests true "r1" "d1" 20)

one_pending_example : count_pending "d1" requested.requests ≤ 1
one_pending_example =
    one_pending {accepts = accepts_all} "d1"
      (next (next here (creates true "d1" 10 body)) (requests true "r1" "d1" 20))

retired_phase : phase "d1" put_aside ≡ (some decommissioned, 0)
retired_phase = put_aside-phase.0

retired_stays_example :
    phase "d1" (update_device accepts_all true "d1" to_active put_aside).0
    ≡ (some decommissioned, 0)
retired_stays_example =
    retired_stays {accepts = accepts_all} "d1" retired_phase
      (next here (updates true "d1" to_active))

gauge_never_falls_example : All IsInc put_aside.gauge
gauge_never_falls_example = gauge_never_falls {accepts = accepts_all} (
    next (next (next here (creates true "d1" 10 body)) (updates true "d1" to_active))
      (updates true "d1" (record to_active { status = some decommissioned })))

registered_one :
    (status_of "d1" one_device.devices ≡ some registered)
    × (count_pending "d1" one_device.requests ≡ 0)
    × (find_by (λ r. r.id) "r1" one_device.requests ≡ none)
unfolding create_device find_by count_pending
registered_one = (refl, refl, refl)

approval_revives_example :
    (status_of "d1" (retired "d1" requested).devices ≡ some decommissioned)
    × (status_of "d1" (granted "r1" "root" 30 (retired "d1" requested)).devices ≡ some provisioned)
approval_revives_example =
    approval_revives "r1" "d1" "root" 20 30 one_device registered_one.0 registered_one.1
      registered_one.2

abbrev same_value : String → DeviceStatus → Bool
same_value text status = text == status_value status

abbrev two_devices : List Device
two_devices = new_device "d1" 10 body ∷ new_device "d2" 20 body ∷ []

abbrev two_firmwares : List FirmwareVersion
two_firmwares =
    record { id = "f1"; version = "1.0"; device_type = "thermostat" }
    ∷ record { id = "f2"; version = "1.0"; device_type = "thermostat" }
    ∷ []

approved_at_once : (status_of "d1" (granted "r1" "root" 30 requested).devices ≡ some provisioned)
unfolding create_device request_provisioning approve_provisioning find_by update_by count_pending
approved_at_once = refl

abbrev texts : RolloutJson
texts = record {
  dumps = λ r. r.rollout_id;
  loads = λ s. some (record {
    rollout_id = s;
    firmware_id = "f1";
    firmware_version = "1.0";
    device_type = "thermostat";
    target_devices = [];
  });
}

abbrev catalog : List FirmwareVersion
catalog = record { id = "f1"; version = "1.0"; device_type = "thermostat" } ∷ []

f1_found :
    find_by (λ f. f.id) "f1" catalog
    ≡ some (record { id = "f1"; version = "1.0"; device_type = "thermostat" })
unfolding find_by
f1_found = refl

-- Of the texts that are used here, only "null" is no object.
abbrev no_null : String → Bool
no_null text = not (text == "null")

abbrev to_null : Updates
to_null = record to_active { status = none; metadata = some "null" }

abbrev first_device : Device
first_device = new_device "d1" 10 body

first_found : find_by (λ d. d.id) "d1" one_device.devices ≡ some first_device
unfolding create_device find_by
first_found = refl

null_metadata_stored_example :
    ((handle accepts_all no_null true (put_device "d1" to_null) one_device).1 ≡ 500)
    × (find_by
          (λ d. d.id)
          "d1"
          (handle accepts_all no_null true (put_device "d1" to_null) one_device).0.devices
        ≡ some (set_values to_null first_device))
null_metadata_stored_example =
    null_metadata_stored accepts_all no_null "d1" to_null one_device first_device refl refl refl
      first_found refl

no_request :
    (find_by (λ r. r.id) "r1" one_device.requests ≡ none)
    × (find_by (λ r. r.id) "r2" one_device.requests ≡ none)
unfolding create_device find_by
no_request = (refl, refl)

two_pending_example :
    (count_pending "d1" (raced "r1" "r2" "d1" 20 21 one_device).requests ≡ 2)
    × ((request_provisioning true "r3" "d1" 22 (raced "r1" "r2" "d1" 20 21 one_device)).1 ≡ raised)
two_pending_example =
    two_pending "r1" "r2" "r3" "d1" 20 21 22 one_device registered_one.0 registered_one.1
      no_request.0 no_request.1 (λ e. ground (arith, string_eq.beq_iff "r1" "r2", e))
