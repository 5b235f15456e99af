-- ===== src/DeviceManager/Race.antt =====
-- provision_service.py: two requests for one device that are handled at the same time.
use g_io_t_edge_gateway.Prelude.{
  List, String, [], arith, nat_eq, none, some, string_eq, suc, true, ℕ, ◌++◌, ◌∷◌, ◌≡◌, ◌≢◌,
}
use g_io_t_edge_gateway.DeviceManager.Table.{find_by, find_by-append}
use g_io_t_edge_gateway.DeviceManager.Models.{ProvisioningRequest, registered}
use g_io_t_edge_gateway.DeviceManager.Service.{Service, raised}
use g_io_t_edge_gateway.DeviceManager.Provisioning.{
  add_request, count_pending, new_request, request_provisioning,
}
use g_io_t_edge_gateway.DeviceManager.Lifecycle.{status_of}
use g_io_t_edge_gateway.DeviceManager.Refines.{count_pending-append}

-- The INSERT of a request whose SELECT saw the requests `seen`.
abbrev pub inserts_after : List ProvisioningRequest → String → String → ℕ → Service → Service
inserts_after seen id device_id now s =
    (add_request (count_pending device_id seen) true id device_id now s).0

-- Two requests, both of whose SELECTs come before the first INSERT.
abbrev pub raced : String → String → String → ℕ → ℕ → Service → Service
raced id id' device_id now later s =
    inserts_after s.requests id' device_id later (inserts_after s.requests id device_id now s)

inserts_after-lem :
    (seen : List ProvisioningRequest) (id device_id : String) (now : ℕ) (s : Service)
    → count_pending device_id seen ≡ 0
    → find_by (λ r. r.id) id s.requests ≡ none
    → (count_pending device_id (inserts_after seen id device_id now s).requests
        ≡ suc (count_pending device_id s.requests))
      × ((inserts_after seen id device_id now s).requests
          ≡ s.requests ++ new_request id device_id now ∷ [])
      × ((inserts_after seen id device_id now s).devices ≡ s.devices)
inserts_after-lem seen id device_id now s nobody fresh = ground (
  arith,
  nobody,
  fresh,
  count_pending-append device_id s.requests (new_request id device_id now),
  string_eq.beq_iff device_id device_id,
)

-- Two requests for a registered device that has none pending, both of which look for a pending one
-- before either is inserted, leave two pending requests; and each later request for the device,
-- as long as it stays so, raises.
pub two_pending :
    (id id' next_id device_id : String) (now later last : ℕ) (s : Service)
    → status_of device_id s.devices ≡ some registered
    → count_pending device_id s.requests ≡ 0
    → find_by (λ r. r.id) id s.requests ≡ none
    → find_by (λ r. r.id) id' s.requests ≡ none
    → id ≢ id'
    → (count_pending device_id (raced id id' device_id now later s).requests ≡ 2)
      × ((request_provisioning true next_id device_id last (raced id id' device_id now later s)).1
          ≡ raised)
unfolding request_provisioning
two_pending id id' next_id device_id now later last s is_new nobody fresh fresh' differ =
    let t : Service = inserts_after s.requests id device_id now s in
    let (one, added, kept) = inserts_after-lem s.requests id device_id now s nobody fresh in
    let fresh'' : find_by (λ r. r.id) id' t.requests ≡ none = ground (
      arith,
      added,
      fresh',
      differ,
      find_by-append (λ r. r.id) id' (new_request id device_id now) s.requests,
      string_eq.beq_iff id id',
    ) in
    let (two, added', kept') = inserts_after-lem s.requests id' device_id later t nobody fresh'' in
    let both : count_pending device_id (raced id id' device_id now later s).requests ≡ 2 =
      ground (arith, two, one, nobody) in
    let there : status_of device_id (raced id id' device_id now later s).devices ≡ some registered =
      rw (kept', kept) is_new in
    (both, ground (arith, both, there))
