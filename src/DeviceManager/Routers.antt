-- ===== src/DeviceManager/Routers.antt =====
-- routers/devices.py and routers/provisioning.py: the status codes of the calls that write.
use g_io_t_edge_gateway.Prelude.{
  Bool, Option, String, arith, false, if◌then◌else◌, nat_eq, none, not, refl, some, string_eq, true,
  ℕ, ◌&&◌, ◌≡◌,
}
use g_io_t_edge_gateway.DeviceManager.Table.{find_by, find_by-update_by, update_by}
use g_io_t_edge_gateway.DeviceManager.Models.{Device, is_decommissioned}
use g_io_t_edge_gateway.DeviceManager.Service.{
  Answer, DeviceData, Service, Updates, create_device, delete_device, done, is_storable, missing,
  or_old, raised, refused, set_values, update_device,
}
use g_io_t_edge_gateway.DeviceManager.Provisioning.{approve_provisioning, request_provisioning}

pub data Call : Type 0 where
  post_device : (id : String) (now : ℕ) (body : DeviceData) → Call
  put_device : (id : String) (u : Updates) → Call
  delete_device_call : (id : String) → Call
  post_request : (id device_id : String) (now : ℕ) → Call
  post_approve : (id approved_by : String) (now : ℕ) → Call

abbrev pub is_none : {A : Type 0} → Option A → Bool
is_none none = true
is_none (some a) = false

-- `not updates`.
abbrev pub sets_nothing : Updates → Bool
sets_nothing u =
    is_none u.name
    && is_none u.device_type
    && is_none u.status
    && is_none u.firmware_version
    && is_none u.metadata
    && not u.sets_null

-- `None` or `False` is 404, a ValueError 409, and another exception 500. `responds` says whether
-- the value can be made a response; a value that cannot raises too.
abbrev pub code_of : {A : Type 0} → (A → Bool) → ℕ → Answer A → ℕ
code_of responds ok (done a) = if responds a then ok else 500
code_of responds ok missing = 404
code_of responds ok refused = 409
code_of responds ok raised = 500

abbrev pub with_code : {A : Type 0} → (A → Bool) → ℕ → Service × Answer A → Service × ℕ
with_code responds ok (s, a) = (s, code_of responds ok a)

abbrev pub always : {A : Type 0} → A → Bool
always a = true

module _ (accepts : Updates → Bool) (is_object : String → Bool) where
  -- `_device_to_response`: DeviceResponse takes a JSON object as metadata and nothing else.
  abbrev pub device_to_response : Device → Bool
  device_to_response d = is_object d.metadata

  -- The service after a call, and the status code.
  unfoldable pub handle : Bool → Call → Service → Service × ℕ
  handle redis_up (post_device id now body) s =
      with_code device_to_response 201 (create_device redis_up id now body s)
  handle redis_up (put_device id u) s =
      if sets_nothing u
      then (s, 400)
      else with_code device_to_response 200 (update_device accepts redis_up id u s)
  handle redis_up (delete_device_call id) s = with_code always 200 (delete_device redis_up id s)
  handle redis_up (post_request id device_id now) s =
      with_code always 201 (request_provisioning redis_up id device_id now s)
  handle redis_up (post_approve id approved_by now) s =
      with_code always 200 (approve_provisioning redis_up id approved_by now s)

  -- The metadata that a call carries is a JSON object. A body is validated to that, but for the
  -- null that a PUT may set.
  abbrev pub CarriesObject : Call → Type 0
  CarriesObject (post_device id now body) = is_object body.metadata ≡ true
  CarriesObject (put_device id u) = is_object (or_old u.metadata "{}") ≡ true
  CarriesObject (delete_device_call id) = Unit
  CarriesObject (post_request id device_id now) = Unit
  CarriesObject (post_approve id approved_by now) = Unit

-- An operation that does not end well changes nothing, and one that does gives a value that can be
-- a response, unless Redis is down.
abbrev Tidy : {A : Type 0} → (A → Bool) → Service → Service × Answer A → Type 0
Tidy responds s (t, done a) = responds a ≡ true
Tidy responds s (t, missing) = t ≡ s
Tidy responds s (t, refused) = t ≡ s
Tidy responds s (t, raised) = t ≡ s

-- A PUT that sets the metadata of a device that is not decommissioned to null, which is no JSON
-- object: it is answered with 500, and the device has been changed all the same.
pub null_metadata_stored :
    (accepts : Updates → Bool) (is_object : String → Bool) (id : String) (u : Updates) (s : Service)
    (existing : Device)
    → is_object "null" ≡ false
    → u.metadata ≡ some "null"
    → is_storable accepts u ≡ true
    → find_by (λ d. d.id) id s.devices ≡ some existing
    → is_decommissioned existing.status ≡ false
    → let (t, code) = handle accepts is_object true (put_device id u) s in
      (code ≡ 500) × (find_by (λ d. d.id) id t.devices ≡ some (set_values u existing))
unfolding handle update_device
null_metadata_stored accepts is_object id u s existing no_object null fits found here' =
    let found' : find_by (λ d. d.id) id (update_by (λ d. d.id) id (set_values u) s.devices)
        ≡ some (set_values u existing) =
      ground (
        arith,
        found,
        find_by-update_by (λ d. d.id) id id (set_values u) s.devices (λ d. refl),
        string_eq.beq_iff id id,
      ) in
    let no_response : is_object (or_old u.metadata existing.metadata) ≡ false =
      rw (null, or_old) no_object in
    ground (arith, null, fits, found, here', found', no_response)
