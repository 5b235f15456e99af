-- ===== src/DeviceManager/Gauge.antt =====
-- device_service.py: the gauge ACTIVE_DEVICES, and the ways around the rules of a device's life.
use g_io_t_edge_gateway.Prelude.{
  All, All-append, Bool, Bool-cases, List, Option, Option-cases, String, [], arith, false, inl, inr,
  nat_eq, none, refl, some, string_eq, suc, true, zero, ℕ, ◌++◌, ◌==◌, ◌∷◌, ◌≡◌,
}
use g_io_t_edge_gateway.DeviceManager.Table.{find_by, update_by}
use g_io_t_edge_gateway.DeviceManager.Models.{Device, DeviceStatus, is_active, is_decommissioned}
use g_io_t_edge_gateway.DeviceManager.Service.{
  DeviceData, Event, GaugeCall, Service, Updates, count_active, counted_delete, counted_update,
  create_device, dec, decommission, delete_device, emit, inc, is_storable, or_old, set_values,
  update_device, updated,
}
use g_io_t_edge_gateway.DeviceManager.Provisioning.{
  Reach, Step, add_request, approve_provisioning, approves, count_pending, creates, deletes, empty,
  here, next, request_provisioning, requests, updates,
}

-- No call of `dec`.
abbrev pub IsInc : GaugeCall → Type 0
IsInc (inc device_type) = Unit
IsInc (dec device_type) = ⊥

abbrev OnlyInc : Service → Type 0
OnlyInc s = All IsInc s.gauge

emit-OnlyInc :
    {A : Type 0} (redis_up : Bool) (event : Event) (s : Service) (a : A)
    → OnlyInc s
    → OnlyInc (emit redis_up event (s, a)).0
emit-OnlyInc true event s a h = h
emit-OnlyInc false event s a h = h

-- The row `device` has the new status, so the branch that calls `dec` is never taken.
count_active-OnlyInc :
    (o : Option DeviceStatus) (device : Device) (s : Service)
    → device.status ≡ or_old o device.status
    → OnlyInc s
    → OnlyInc (count_active o device device s)
count_active-OnlyInc none device s e h = h
count_active-OnlyInc (some t) device s e h = elim (Bool-cases (is_active t)) [
  | inl on ↦
      rw (on, count_active) (All-append IsInc s.gauge (inc device.device_type ∷ []) h (tt, tt))
  | inr off ↦ rw (off, count_active) (rw e (rw off h))
]

updated-OnlyInc :
    (redis_up : Bool) (id : String) (u : Updates) (s : Service)
    → ((device : Device)
        → find_by (λ d. d.id) id s.devices ≡ some device
        → device.status ≡ or_old u.status device.status)
    → OnlyInc s
    → OnlyInc (updated redis_up id u s).0
updated-OnlyInc redis_up id u s new h = elim (Option-cases (find_by (λ d. d.id) id s.devices)) [
  | inl e ↦ rw (e, updated) h
  | inr (device, e) ↦ rw (e, updated) (sent redis_up device (new device e))
]
  where
    sent :
        (up : Bool) (device : Device)
        → device.status ≡ or_old u.status device.status
        → OnlyInc
            (counted_update u
              (emit up (record { event_type = "device_updated"; device_id = id }) (s, device))).0
    sent true device e =
        count_active-OnlyInc u.status device
          (record s {
            events = s.events ++ record { event_type = "device_updated"; device_id = id } ∷ [];
          })
          e h
    sent false device e = h

set_values-twice :
    (o : Option DeviceStatus) (old : DeviceStatus) → or_old o old ≡ or_old o (or_old o old)
set_values-twice none old = refl
set_values-twice (some t) old = refl

found_updated :
    (id : String) (u : Updates) (devices : List Device) (device : Device)
    → find_by (λ d. d.id) id (update_by (λ d. d.id) id (set_values u) devices) ≡ some device
    → device.status ≡ or_old u.status device.status
unfolding find_by update_by
found_updated id u [] device e = cc
found_updated id u (d ∷ ds) device e = elim (Bool-cases (d.id == id)) [
  | inl same ↦ ground (arith, e, same, set_values-twice u.status d.status)
  | inr differ ↦ found_updated id u ds device (ground (arith, e, differ))
]

emit-gauge :
    {A : Type 0} (redis_up : Bool) (event : Event) (s : Service) (a : A)
    → (emit redis_up event (s, a)).0.gauge ≡ s.gauge
emit-gauge true event s a = refl
emit-gauge false event s a = refl

create_device-gauge :
    (redis_up : Bool) (id : String) (now : ℕ) (body : DeviceData) (s : Service)
    → (create_device redis_up id now body s).0.gauge ≡ s.gauge
unfolding create_device
create_device-gauge true id now body s = ground arith
create_device-gauge false id now body s = ground arith

-- The row is decommissioned when the guard before the last `dec` reads it.
decommissioned-found :
    (id : String) (devices : List Device) (device : Device)
    → find_by (λ d. d.id) id (update_by (λ d. d.id) id decommission devices) ≡ some device
    → is_active device.status ≡ false
unfolding find_by update_by
decommissioned-found id [] device e = cc
decommissioned-found id (d ∷ ds) device e = elim (Bool-cases (d.id == id)) [
  | inl same ↦ ground (arith, e, same)
  | inr differ ↦ decommissioned-found id ds device (ground (arith, e, differ))
]

counted_delete-gauge :
    (redis_up : Bool) (id : String) (event : Event) (s : Service)
    → ((device : Device)
        → find_by (λ d. d.id) id s.devices ≡ some device
        → is_active device.status ≡ false)
    → (counted_delete id (emit redis_up event (s, true))).0.gauge ≡ s.gauge
counted_delete-gauge false id event s idle = refl
counted_delete-gauge true id event s idle = elim (Option-cases (find_by (λ d. d.id) id s.devices)) [
  | inl e ↦ ground (arith, e)
  | inr (device, e) ↦ ground (arith, e, idle device e)
]

delete_device-gauge :
    (redis_up : Bool) (id : String) (s : Service) → (delete_device redis_up id s).0.gauge ≡ s.gauge
unfolding delete_device
delete_device-gauge redis_up id s = ground (
  arith,
  counted_delete-gauge redis_up id (record { event_type = "device_decommissioned"; device_id = id })
      (record s { devices = update_by (λ d. d.id) id decommission s.devices })
      (decommissioned-found id s.devices),
)

add_request-gauge :
    (n : ℕ) (redis_up : Bool) (id device_id : String) (now : ℕ) (s : Service)
    → (add_request n redis_up id device_id now s).0.gauge ≡ s.gauge
add_request-gauge zero true id device_id now s = ground arith
add_request-gauge zero false id device_id now s = ground arith
add_request-gauge (suc zero) redis_up id device_id now s = refl
add_request-gauge (suc (suc n)) redis_up id device_id now s = refl

request_provisioning-gauge :
    (redis_up : Bool) (id device_id : String) (now : ℕ) (s : Service)
    → (request_provisioning redis_up id device_id now s).0.gauge ≡ s.gauge
unfolding request_provisioning
request_provisioning-gauge redis_up id device_id now s =
    ground
      (arith, add_request-gauge (count_pending device_id s.requests) redis_up id device_id now s)

approve_provisioning-gauge :
    (redis_up : Bool) (id by : String) (now : ℕ) (s : Service)
    → (approve_provisioning redis_up id by now s).0.gauge ≡ s.gauge
unfolding approve_provisioning
approve_provisioning-gauge true id by now s = ground arith
approve_provisioning-gauge false id by now s = ground arith

update_device-OnlyInc :
    (accepts : Updates → Bool) (redis_up : Bool) (id : String) (u : Updates) (s : Service)
    → OnlyInc s
    → OnlyInc (update_device accepts redis_up id u s).0
unfolding update_device
update_device-OnlyInc accepts redis_up id u s h =
    elim (Option-cases (find_by (λ d. d.id) id s.devices)) [
      | inl e ↦ rw (e, update_device) h
      | inr (existing, e) ↦
          let s' : Service = record s {
            devices = update_by (λ d. d.id) id (set_values u) s.devices;
          } in
          let good : OnlyInc (updated redis_up id u s').0 =
            updated-OnlyInc redis_up id u s' (found_updated id u s.devices) h in
          elim (Bool-cases (is_decommissioned existing.status)) [
            | inl gone ↦ rw (e, update_device) (rw gone h)
            | inr here' ↦ elim (Bool-cases (is_storable accepts u)) [
              | inl fits ↦ rw (e, update_device) (rw here' (rw fits good))
              | inr bad ↦ rw (e, update_device) (rw here' (rw bad h))
            ]
          ]
    ]

Step-OnlyInc : {accepts : Updates → Bool} {s t : Service} → Step accepts s t → OnlyInc s → OnlyInc t
Step-OnlyInc {accepts} {s} (creates redis_up key now body) h =
    rw (create_device-gauge redis_up key now body s) h
Step-OnlyInc {accepts} {s} (updates redis_up key u) h =
    update_device-OnlyInc accepts redis_up key u s h
Step-OnlyInc {accepts} {s} (deletes redis_up key) h = rw (delete_device-gauge redis_up key s) h
Step-OnlyInc {accepts} {s} (requests redis_up key device_id now) h =
    rw (request_provisioning-gauge redis_up key device_id now s) h
Step-OnlyInc {accepts} {s} (approves redis_up key by now) h =
    rw (approve_provisioning-gauge redis_up key by now s) h

-- The gauge of the active devices never falls while calls are handled one at a time: neither an
-- update nor a deletion ever calls `dec`, whatever leaves the status `active`, since both guards
-- before it read the row after its change.
pub gauge_never_falls :
    {accepts : Updates → Bool} {s : Service} → Reach accepts empty s → All IsInc s.gauge
gauge_never_falls here = tt
gauge_never_falls (next r step) = Step-OnlyInc step (gauge_never_falls r)
