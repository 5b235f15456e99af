-- ===== src/DeviceManager/Lifecycle.antt =====
-- The life of one device: what may happen to its status and to its pending requests. An edit goes
-- past the rule that an active device is not retired. The devices against it; Refines has the rest.
use mathlib.Core.Option
use g_io_t_edge_gateway.Prelude.{
  ==_eq, Bool, Bool-cases, List, Option, Option-cases, String, [], ap, arith, false, if◌then◌else◌,
  inl, inr, nat_eq, none, refl, some, string_eq, subst, suc, sym, true, ℕ, ◌++◌, ◌==◌, ◌∙◌, ◌∷◌,
  ◌≡◌,
}
use g_io_t_edge_gateway.DeviceManager.Table.{find_by, find_by-append, find_by-update_by, update_by}
use g_io_t_edge_gateway.DeviceManager.Models.{
  Device, DeviceStatus, decommissioned, is_active, is_decommissioned, provisioned, registered,
}
use g_io_t_edge_gateway.DeviceManager.Service.{
  Answer, DeviceData, Event, Service, Updates, count_active, counted_delete, counted_update,
  create_device, decommission, delete_device, done, emit, is_storable, missing, new_device, raised,
  refused, set_values, update_device, updated,
}
use g_io_t_edge_gateway.DeviceManager.Provisioning.{count_pending}

-- What the life of a device depends on: its status, if it is there, and how many of its requests
-- are pending.
abbrev pub Phase : Type 0
Phase = Option DeviceStatus × ℕ

pub data Life : Phase → Phase → Type 0 where
  stays : {p : Phase} → Life p p
  registers : {n : ℕ} → Life (none, n) (some registered, n)
  edits :
      {old new : DeviceStatus} {n : ℕ}
      → is_decommissioned old ≡ false
      → Life (some old, n) (some new, n)
  retires :
      {s : DeviceStatus} {n : ℕ}
      → is_active s ≡ false
      → is_decommissioned s ≡ false
      → Life (some s, n) (some decommissioned, n)
  asks : Life (some registered, 0) (some registered, 1)
  is_approved : {s : DeviceStatus} {n : ℕ} → Life (some s, suc n) (some provisioned, n)
  -- A request of a device that is not there.
  is_dropped : {n : ℕ} → Life (none, suc n) (none, n)

abbrev pub status_of : String → List Device → Option DeviceStatus
status_of id devices = Option.map (λ d. d.status) (find_by (λ d. d.id) id devices)

abbrev pub phase : String → Service → Phase
phase id s = (status_of id s.devices, count_pending id s.requests)

pub Life-at : {p q p' q' : Phase} → p' ≡ p → q' ≡ q → Life p q → Life p' q'
Life-at {p} {q} {p'} {q'} e e' l = subst (λ x. Life x q') (sym e) (subst (λ x. Life p x) (sym e') l)

pub emit-phase :
    {A : Type 0} (id : String) (redis_up : Bool) (event : Event) (s : Service) (a : A)
    → phase id (emit redis_up event (s, a)).0 ≡ phase id s
emit-phase id true event s a = refl
emit-phase id false event s a = refl

count_active-phase :
    (id : String) (o : Option DeviceStatus) (existing device : Device) (s : Service)
    → phase id (count_active o existing device s) ≡ phase id s
count_active-phase id none existing device s = refl
count_active-phase id (some t) existing device s = ground arith

counted_update-phase :
    (id : String) (u : Updates) (r : Service × Answer Device)
    → phase id (counted_update u r).0 ≡ phase id r.0
counted_update-phase id u (s, done device) = count_active-phase id u.status device device s
counted_update-phase id u (s, missing) = refl
counted_update-phase id u (s, refused) = refl
counted_update-phase id u (s, raised) = refl

counted_delete-phase :
    (id key : String) (r : Service × Answer Bool) → phase id (counted_delete key r).0 ≡ phase id r.0
counted_delete-phase id key (s, done deleted) = ground arith
counted_delete-phase id key (s, missing) = refl
counted_delete-phase id key (s, refused) = refl
counted_delete-phase id key (s, raised) = refl

updated-phase :
    (id : String) (redis_up : Bool) (key : String) (u : Updates) (s : Service)
    → phase id (updated redis_up key u s).0 ≡ phase id s
updated-phase id redis_up key u s = elim (Option-cases (find_by (λ d. d.id) key s.devices)) [
  | inl e ↦ rw (e, updated) refl
  | inr (device, e) ↦
      let event : Event = record { event_type = "device_updated"; device_id = key } in
      rw (e, updated)
        (counted_update-phase id u (emit redis_up event (s, device))
          ∙ emit-phase id redis_up event s device)
]

pub status_of-update_by :
    (id key : String) (f : Device → Device) (devices : List Device)
    → ((d : Device) → (f d).id ≡ d.id)
    → status_of id (update_by (λ d. d.id) key f devices) ≡ (
        if key == id
        then Option.map (λ d. (f d).status) (find_by (λ d. d.id) id devices)
        else status_of id devices)
status_of-update_by id key f devices kept =
    ap (Option.map (λ d. d.status)) (find_by-update_by (λ d. d.id) id key f devices kept)
    ∙ elim (Bool-cases (key == id)) [
      | inl e ↦ elim (Option-cases (find_by (λ d. d.id) id devices)) [
        | inl e' ↦ rw e (rw e' refl)
        | inr (d, e') ↦ rw e (rw e' refl)
      ]
      | inr e ↦ rw e refl
    ]

-- An update of one row by `f`, as the status of each device sees it.
updates_row-Life :
    (id key : String) (f : Device → Device) (s : Service) (existing : Device)
    → ((d : Device) → (f d).id ≡ d.id)
    → find_by (λ d. d.id) key s.devices ≡ some existing
    → Life
        (some existing.status, count_pending id s.requests)
        (some (f existing).status, count_pending id s.requests)
    → Life (phase id s) (phase id (record s { devices = update_by (λ d. d.id) key f s.devices }))
updates_row-Life id key f s existing kept found l = elim (Bool-cases (key == id)) [
  | inl e ↦
      let found' : find_by (λ d. d.id) id s.devices ≡ some existing =
        subst (λ k. find_by (λ d. d.id) k s.devices ≡ some existing) (==_eq key id e) found in
      Life-at (rw found' refl)
        (rw (status_of-update_by id key f s.devices kept) (rw e (rw found' refl))) l
  | inr e ↦ Life-at refl (rw (status_of-update_by id key f s.devices kept) (rw e refl)) stays
]

pub create_device-Life :
    (id : String) (redis_up : Bool) (key : String) (now : ℕ) (body : DeviceData) (s : Service)
    → Life (phase id s) (phase id (create_device redis_up key now body s).0)
unfolding create_device
create_device-Life id redis_up key now body s =
    elim (Option-cases (find_by (λ d. d.id) key s.devices)) [
      | inr (taken, e) ↦ rw (e, create_device) stays
      | inl e ↦
          let device : Device = new_device key now body in
          let s' : Service = record s { devices = s.devices ++ device ∷ [] } in
          let new : Life (phase id s) (phase id s') =
            elim (Option-cases (find_by (λ d. d.id) id s.devices)) [
              | inr (old, f) ↦
                  Life-at refl (rw (find_by-append (λ d. d.id) id device s.devices) (rw f refl))
                    stays
              | inl f ↦ elim (Bool-cases (key == id)) [
                | inl same ↦
                    Life-at (rw f refl)
                      (rw (find_by-append (λ d. d.id) id device s.devices) (rw f (rw same refl)))
                      (registers {n = count_pending id s.requests})
                | inr differ ↦
                    Life-at (rw f refl)
                      (rw (find_by-append (λ d. d.id) id device s.devices) (rw f (rw differ refl)))
                      (stays {p = (none, count_pending id s.requests)})
              ]
            ] in
          let event : Event = record { event_type = "device_created"; device_id = key } in
          rw (e, create_device) (Life-at refl (emit-phase id redis_up event s' device) new)
    ]

pub update_device-Life :
    (id : String) (accepts : Updates → Bool) (redis_up : Bool) (key : String) (u : Updates)
    (s : Service)
    → Life (phase id s) (phase id (update_device accepts redis_up key u s).0)
unfolding update_device
update_device-Life id accepts redis_up key u s =
    elim (Option-cases (find_by (λ d. d.id) key s.devices)) [
      | inl e ↦ rw (e, update_device) stays
      | inr (existing, e) ↦
          let s' : Service = record s {
            devices = update_by (λ d. d.id) key (set_values u) s.devices;
          } in
          elim (Bool-cases (is_decommissioned existing.status)) [
            | inl gone ↦ rw (e, update_device) (rw gone stays)
            | inr here' ↦ elim (Bool-cases (is_storable accepts u)) [
              | inr bad ↦ rw (e, update_device) (rw here' (rw bad stays))
              | inl good ↦
                  rw (e, update_device)
                    (rw here' (
                      rw good (
                        Life-at refl (updated-phase id redis_up key u s') (
                          updates_row-Life id key (set_values u) s existing (λ d. refl) e
                            (edits here')))))
            ]
          ]
    ]

pub delete_device-Life :
    (id : String) (redis_up : Bool) (key : String) (s : Service)
    → Life (phase id s) (phase id (delete_device redis_up key s).0)
unfolding delete_device
delete_device-Life id redis_up key s = elim (Option-cases (find_by (λ d. d.id) key s.devices)) [
  | inl e ↦ rw (e, delete_device) stays
  | inr (existing, e) ↦
      let s' : Service = record s { devices = update_by (λ d. d.id) key decommission s.devices } in
      let event : Event = record { event_type = "device_decommissioned"; device_id = key } in
      elim (Bool-cases (is_active existing.status)) [
        | inl busy ↦ rw (e, delete_device) (rw busy stays)
        | inr idle ↦ elim (Bool-cases (is_decommissioned existing.status)) [
          | inl gone ↦ rw (e, delete_device) (rw idle (rw gone stays))
          | inr here' ↦
              rw (e, delete_device)
                (rw idle (
                  rw here' (
                    Life-at refl
                      (counted_delete-phase id key (emit redis_up event (s', true))
                        ∙ emit-phase id redis_up event s' true)
                      (updates_row-Life id key decommission s existing (λ d. refl) e
                        (retires idle here')))))
        ]
      ]
]
