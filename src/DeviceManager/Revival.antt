-- ===== src/DeviceManager/Revival.antt =====
-- provision_service.py: an approval looks at the request alone.
use g_io_t_edge_gateway.Prelude.{
  String, [], arith, nat_eq, none, refl, some, string_eq, true, ℕ, ◌++◌, ◌∷◌, ◌≡◌,
}
use g_io_t_edge_gateway.DeviceManager.Table.{find_by, find_by-append}
use g_io_t_edge_gateway.DeviceManager.Models.{
  DeviceStatus, ProvisioningRequest, decommissioned, is_pending, provisioned, registered,
}
use g_io_t_edge_gateway.DeviceManager.Service.{Service, decommission, delete_device}
use g_io_t_edge_gateway.DeviceManager.Provisioning.{
  approve_provisioning, count_pending, new_request, provision, request_provisioning,
}
use g_io_t_edge_gateway.DeviceManager.Lifecycle.{status_of, status_of-update_by}

-- A registered device asks for provisioning, is decommissioned, and the request is approved.
abbrev pub asked : String → String → ℕ → Service → Service
asked id device_id now s = (request_provisioning true id device_id now s).0

abbrev pub retired : String → Service → Service
retired device_id s = (delete_device true device_id s).0

abbrev pub granted : String → String → ℕ → Service → Service
granted id by now s = (approve_provisioning true id by now s).0

asked-lem :
    (id device_id : String) (now : ℕ) (s : Service)
    → status_of device_id s.devices ≡ some registered
    → count_pending device_id s.requests ≡ 0
    → find_by (λ r. r.id) id s.requests ≡ none
    → ((asked id device_id now s).devices ≡ s.devices)
      × ((asked id device_id now s).requests ≡ s.requests ++ new_request id device_id now ∷ [])
unfolding request_provisioning
asked-lem id device_id now s is_new none_pending fresh = ground (arith, is_new, none_pending, fresh)

retired-lem :
    (device_id : String) (s : Service)
    → status_of device_id s.devices ≡ some registered
    → (status_of device_id (retired device_id s).devices ≡ some decommissioned)
      × ((retired device_id s).requests ≡ s.requests)
unfolding delete_device
retired-lem device_id s is_new = ground (
  arith,
  is_new,
  status_of-update_by device_id device_id decommission s.devices (λ d. refl),
  string_eq.beq_iff device_id device_id,
)

granted-lem :
    (id device_id by : String) (now : ℕ) (s : Service) (t : DeviceStatus) (r : ProvisioningRequest)
    → status_of device_id s.devices ≡ some t
    → find_by (λ r. r.id) id s.requests ≡ some r
    → r.device_id ≡ device_id
    → is_pending r.status ≡ true
    → status_of device_id (granted id by now s).devices ≡ some provisioned
unfolding approve_provisioning
granted-lem id device_id by now s t r found of_device waiting = ground (
  arith,
  found,
  of_device,
  waiting,
  status_of-update_by device_id device_id provision s.devices (λ d. refl),
  string_eq.beq_iff device_id device_id,
)

-- A device that is registered and has no pending request asks for provisioning and is
-- decommissioned: approval of the request then makes it `provisioned` again.
pub approval_revives :
    (id device_id by : String) (now later : ℕ) (s : Service)
    → status_of device_id s.devices ≡ some registered
    → count_pending device_id s.requests ≡ 0
    → find_by (λ r. r.id) id s.requests ≡ none
    → let gone = retired device_id (asked id device_id now s) in
      (status_of device_id gone.devices ≡ some decommissioned)
      × (status_of device_id (granted id by later gone).devices ≡ some provisioned)
approval_revives id device_id by now later s is_new none_pending fresh =
    let request : ProvisioningRequest = new_request id device_id now in
    let u : Service = asked id device_id now s in
    let (same, added) = asked-lem id device_id now s is_new none_pending fresh in
    let (gone, kept) = retired-lem device_id u (rw same is_new) in
    let found : find_by (λ r. r.id) id (retired device_id u).requests ≡ some request = ground (
      arith,
      kept,
      added,
      fresh,
      find_by-append (λ r. r.id) id request s.requests,
      string_eq.beq_iff id id,
    ) in
    (
      gone,
      granted-lem id device_id by later (retired device_id u) decommissioned request gone found refl
          refl,
    )
