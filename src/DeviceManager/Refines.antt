-- ===== src/DeviceManager/Refines.antt =====
-- provision_service.py against the life of a device, and the whole service.
use g_io_t_edge_gateway.Prelude.{
  ==_eq, Bool, Bool-cases, List, Option-cases, String, [], ap, arith, if◌then◌else◌, inl, inr,
  nat_eq, none, refl, some, string_eq, suc, true, zero, ℕ, ◌++◌, ◌+◌, ◌==◌, ◌∙◌, ◌∷◌, ◌≡◌, ◌≤◌,
}
use g_io_t_edge_gateway.DeviceManager.Table.{find_by, update_by}
use g_io_t_edge_gateway.DeviceManager.Models.{
  Device, DeviceStatus, ProvisioningRequest, decommissioned, is_pending, is_registered, provisioned,
  registered,
}
use g_io_t_edge_gateway.DeviceManager.Service.{Event, Service, Updates}
use g_io_t_edge_gateway.DeviceManager.Provisioning.{
  Reach, Step, add_request, approve, approve_provisioning, approves, count_pending, creates,
  deletes, empty, here, is_pending_for, new_request, next, provision, request_provisioning,
  requests, updates,
}
use g_io_t_edge_gateway.DeviceManager.Lifecycle.{
  Life, Life-at, Phase, asks, create_device-Life, delete_device-Life, edits, emit-phase,
  is_approved, is_dropped, phase, registers, retires, status_of, status_of-update_by, stays,
  update_device-Life,
}

pub count_pending-append :
    (id : String) (rs : List ProvisioningRequest) (r : ProvisioningRequest)
    → count_pending id (rs ++ r ∷ []) ≡ count_pending id rs + (if is_pending_for id r then 1 else 0)
unfolding count_pending
count_pending-append id [] r = omega arith
count_pending-append id (x ∷ rs) r = omega (arith, count_pending-append id rs r)

-- Approval of a pending request takes it from its device's pending ones.
count_pending-approve :
    (id key by : String) (now : ℕ) (rs : List ProvisioningRequest) (r : ProvisioningRequest)
    → find_by (λ x. x.id) key rs ≡ some r
    → is_pending r.status ≡ true
    → count_pending id (update_by (λ x. x.id) key (approve now by) rs)
        + (if r.device_id == id then 1 else 0)
      ≡ count_pending id rs
unfolding count_pending find_by update_by
count_pending-approve id key by now [] r found open' = cc
count_pending-approve id key by now (x ∷ rs) r found open' = elim (Bool-cases (x.id == key)) [
  | inl e ↦ let same : x ≡ r = ground (arith, found, e) in rw e (ground (arith, same, open'))
  | inr e ↦
      let rest : find_by (λ x. x.id) key rs ≡ some r = ground (arith, found, e) in
      rw e (ground (arith, count_pending-approve id key by now rs r rest open'))
]

add_request-Life :
    (id : String) (n : ℕ) (redis_up : Bool) (key device_id : String) (now : ℕ) (s : Service)
    → status_of device_id s.devices ≡ some registered
    → count_pending device_id s.requests ≡ n
    → Life (phase id s) (phase id (add_request n redis_up key device_id now s).0)
add_request-Life id (suc zero) redis_up key device_id now s is_new e = stays
add_request-Life id (suc (suc n)) redis_up key device_id now s is_new e = stays
add_request-Life id zero redis_up key device_id now s is_new e =
    elim (Option-cases (find_by (λ r. r.id) key s.requests)) [
      | inr (taken, f) ↦ rw (f, add_request) stays
      | inl f ↦
          let request : ProvisioningRequest = new_request key device_id now in
          let s' : Service = record s { requests = s.requests ++ request ∷ [] } in
          let event : Event = record {
            event_type = "provisioning_requested";
            device_id = device_id;
          } in
          rw (f, add_request)
            (Life-at refl
              (emit-phase id redis_up event s' request
                ∙ ap (λ n. (status_of id s.devices, n))
                    (count_pending-append id s.requests request))
              (elim (Bool-cases (device_id == id)) [
                | inl same ↦
                    let e' : device_id ≡ id = ==_eq device_id id same in
                    Life-at {p = (some registered, 0)} {q = (some registered, 1)}
                      (ground (arith, e', is_new, e)) (ground (arith, same, e', is_new, e)) asks
                | inr differ ↦
                    Life-at {p = phase id s} {q = phase id s} refl (ground (arith, differ)) stays
              ]))
    ]

request_provisioning-Life :
    (id : String) (redis_up : Bool) (key device_id : String) (now : ℕ) (s : Service)
    → Life (phase id s) (phase id (request_provisioning redis_up key device_id now s).0)
unfolding request_provisioning
request_provisioning-Life id redis_up key device_id now s =
    elim (Option-cases (find_by (λ d. d.id) device_id s.devices)) [
      | inl e ↦ rw (e, request_provisioning) stays
      | inr (device, e) ↦ elim (Bool-cases (is_registered device.status)) [
        | inr other ↦ rw (e, request_provisioning) (rw other stays)
        | inl is_new ↦
            rw (e, request_provisioning)
              (rw is_new (
                add_request-Life id (count_pending device_id s.requests) redis_up key device_id now
                  s (rw e (ap some (is_registered_lem device.status is_new))) refl))
      ]
    ]
  where
    is_registered_lem : (t : DeviceStatus) → is_registered t ≡ true → t ≡ registered
    is_registered_lem t h = ground arith

-- A request taken from the pending ones of its device, which is provisioned.
approved-Life :
    (id device_id : String) (devices : List Device) (n m : ℕ)
    → m + (if device_id == id then 1 else 0) ≡ n
    → Life
        (status_of id devices, n)
        (status_of id (update_by (λ d. d.id) device_id provision devices), m)
approved-Life id device_id devices n m e = elim (Bool-cases (device_id == id)) [
  | inr differ ↦
      Life-at {p = (status_of id devices, n)} {q = (status_of id devices, n)} refl
        (rw (status_of-update_by id device_id provision devices (λ d. refl))
          (rw differ (ground (arith, e, differ))))
        stays
  | inl same ↦
      let e' : n ≡ suc m = ground (arith, e, same) in
      elim (Option-cases (find_by (λ d. d.id) id devices)) [
        | inl f ↦
            Life-at {p = (none, suc m)} {q = (none, m)} (ground (arith, f, e'))
              (rw (status_of-update_by id device_id provision devices (λ d. refl))
                (rw same (rw f refl)))
              is_dropped
        | inr (d, f) ↦
            Life-at {p = (some d.status, suc m)} {q = (some provisioned, m)} (ground (arith, f, e'))
              (rw (status_of-update_by id device_id provision devices (λ d. refl))
                (rw same (rw f refl)))
              is_approved
      ]
]

approve_provisioning-Life :
    (id : String) (redis_up : Bool) (key by : String) (now : ℕ) (s : Service)
    → Life (phase id s) (phase id (approve_provisioning redis_up key by now s).0)
unfolding approve_provisioning
approve_provisioning-Life id redis_up key by now s =
    elim (Option-cases (find_by (λ r. r.id) key s.requests)) [
      | inl e ↦ rw (e, approve_provisioning) stays
      | inr (r, e) ↦ elim (Bool-cases (is_pending r.status)) [
        | inr closed ↦ rw (e, approve_provisioning) (rw closed stays)
        | inl open' ↦
            let s' : Service = record s {
              requests = update_by (λ r. r.id) key (approve now by) s.requests;
              devices = update_by (λ d. d.id) r.device_id provision s.devices;
            } in
            let event : Event = record {
              event_type = "provisioning_approved";
              device_id = r.device_id;
            } in
            rw (e, approve_provisioning)
              (rw open' (
                Life-at refl (emit-phase id redis_up event s' (approve now by r)) (
                  approved-Life id r.device_id s.devices (count_pending id s.requests)
                    (count_pending id s'.requests)
                    (count_pending-approve id key by now s.requests r e open'))))
      ]
    ]

-- Every call of the service takes each device one step along its life, or leaves it as it is.
pub Step-Life :
    {accepts : Updates → Bool} {s t : Service} (id : String)
    → Step accepts s t
    → Life (phase id s) (phase id t)
Step-Life {accepts} {s} id (creates redis_up key now body) =
    create_device-Life id redis_up key now body s
Step-Life {accepts} {s} id (updates redis_up key u) = update_device-Life id accepts redis_up key u s
Step-Life {accepts} {s} id (deletes redis_up key) = delete_device-Life id redis_up key s
Step-Life {accepts} {s} id (requests redis_up key device_id now) =
    request_provisioning-Life id redis_up key device_id now s
Step-Life {accepts} {s} id (approves redis_up key by now) =
    approve_provisioning-Life id redis_up key by now s

Life-pending : {p q : Phase} → Life p q → p.1 ≤ 1 → q.1 ≤ 1
Life-pending stays h = h
Life-pending registers h = h
Life-pending (edits e) h = h
Life-pending (retires e f) h = h
Life-pending asks h = omega arith
Life-pending is_approved h = omega (arith, h)
Life-pending is_dropped h = omega (arith, h)

-- While calls are handled one after another, a device never has two pending requests.
pub one_pending :
    {accepts : Updates → Bool} {s : Service} (id : String)
    → Reach accepts empty s
    → count_pending id s.requests ≤ 1
unfolding count_pending
one_pending id here = omega arith
one_pending id (next r step) = Life-pending (Step-Life id step) (one_pending id r)

Life-retired :
    {p q : Phase} → Life p q → p ≡ (some decommissioned, 0) → q ≡ (some decommissioned, 0)
Life-retired stays h = h
Life-retired registers h = cc
Life-retired (edits e) h = ground (arith, e, h)
Life-retired (retires e f) h = ground (arith, f, h)
Life-retired asks h = cc
Life-retired is_approved h = cc
Life-retired is_dropped h = cc

-- A decommissioned device without a pending request stays so for good, and gets no request.
pub retired_stays :
    {accepts : Updates → Bool} {s t : Service} (id : String)
    → phase id s ≡ (some decommissioned, 0)
    → Reach accepts s t
    → phase id t ≡ (some decommissioned, 0)
retired_stays id h here = h
retired_stays id h (next r step) = Life-retired (Step-Life id step) (retired_stays id h r)
