-- ===== src/DeviceManager/Provisioning.antt =====
-- services/provision_service.py, and the service as a whole: the calls that its routers make one
-- after another.
use g_io_t_edge_gateway.Prelude.{
  Bool, List, String, [], if◌then◌else◌, nat_eq, none, some, string_eq, suc, zero, ℕ, ◌&&◌, ◌++◌,
  ◌+◌, ◌==◌, ◌∷◌,
}
use g_io_t_edge_gateway.DeviceManager.Table.{find_by, update_by}
use g_io_t_edge_gateway.DeviceManager.Models.{
  Device, ProvisioningRequest, approved, is_pending, is_registered, pending, provisioned,
}
use g_io_t_edge_gateway.DeviceManager.Service.{
  Answer, DeviceData, Service, Updates, create_device, delete_device, emit, raised, refused,
  update_device,
}

abbrev pub is_pending_for : String → ProvisioningRequest → Bool
is_pending_for device_id r = r.device_id == device_id && is_pending r.status

-- How many requests of the device are pending.
unfoldable pub count_pending : String → List ProvisioningRequest → ℕ
count_pending device_id [] = 0
count_pending device_id (r ∷ rs) =
    (if is_pending_for device_id r then 1 else 0) + count_pending device_id rs

abbrev pub new_request : String → String → ℕ → ProvisioningRequest
new_request id device_id now = record {
  id = id;
  device_id = device_id;
  status = pending;
  requested_at = now;
  approved_at = none;
  approved_by = none;
}

-- The INSERT of a request, where the query for a pending one found `found` rows: several rows make
-- `scalar_one_or_none` raise, and the primary key refuses an id that is taken.
abbrev pub add_request :
    ℕ → Bool → String → String → ℕ → Service → Service × Answer ProvisioningRequest
add_request zero redis_up id device_id now s = elim (find_by (λ r. r.id) id s.requests) [
  | some taken ↦ (s, raised)
  | none ↦
      let request = new_request id device_id now in
      emit redis_up (record { event_type = "provisioning_requested"; device_id = device_id })
        (record s { requests = s.requests ++ request ∷ [] }, request)
]
add_request (suc zero) redis_up id device_id now s = (s, refused)
add_request (suc (suc n)) redis_up id device_id now s = (s, raised)

-- `id` is the new id from `uuid4`.
unfoldable pub request_provisioning :
    Bool → String → String → ℕ → Service → Service × Answer ProvisioningRequest
request_provisioning redis_up id device_id now s = elim (find_by (λ d. d.id) device_id s.devices) [
  | none ↦ (s, refused)
  | some device ↦
      if is_registered device.status
      then add_request (count_pending device_id s.requests) redis_up id device_id now s
      else (s, refused)
]

abbrev pub approve : ℕ → String → ProvisioningRequest → ProvisioningRequest
approve now by r = record r { status = approved; approved_at = some now; approved_by = some by }

abbrev pub provision : Device → Device
provision d = record d { status = provisioned }

-- A request whose device is gone changes no device.
unfoldable pub approve_provisioning :
    Bool → String → String → ℕ → Service → Service × Answer ProvisioningRequest
approve_provisioning redis_up id approved_by now s = elim (find_by (λ r. r.id) id s.requests) [
  | none ↦ (s, refused)
  | some request ↦
      if is_pending request.status
      then emit redis_up
          (record { event_type = "provisioning_approved"; device_id = request.device_id })
          (
            record s {
              requests = update_by (λ r. r.id) id (approve now approved_by) s.requests;
              devices = update_by (λ d. d.id) request.device_id provision s.devices;
            },
            approve now approved_by request,
          )
      else (s, refused)
]

-- One call of the service that writes.
pub data Step (accepts : Updates → Bool) (s : Service) : Service → Type 0 where
  creates :
      (redis_up : Bool) (id : String) (now : ℕ) (body : DeviceData)
      → Step accepts s (create_device redis_up id now body s).0
  updates :
      (redis_up : Bool) (id : String) (u : Updates)
      → Step accepts s (update_device accepts redis_up id u s).0
  deletes : (redis_up : Bool) (id : String) → Step accepts s (delete_device redis_up id s).0
  requests :
      (redis_up : Bool) (id device_id : String) (now : ℕ)
      → Step accepts s (request_provisioning redis_up id device_id now s).0
  approves :
      (redis_up : Bool) (id by : String) (now : ℕ)
      → Step accepts s (approve_provisioning redis_up id by now s).0

pub data Reach (accepts : Updates → Bool) (s : Service) : Service → Type 0 where
  here : Reach accepts s s
  next : {t u : Service} → Reach accepts s t → Step accepts t u → Reach accepts s u

-- The service with empty tables.
abbrev pub empty : Service
empty = record { devices = []; requests = []; events = []; gauge = [] }
