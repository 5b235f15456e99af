-- ===== src/Coordination/Servicer/Failure.antt =====
-- The failure detector: heartbeat.py, gossip.py and coordination_servicer.py over any sequence of
-- events.
use g_io_t_edge_gateway.Prelude.{
  ==_ne, All, Bool, List, String, [], ap, arith, false, if◌then◌else◌, inl, inr, nat_eq, refl, some,
  string_eq, ℕ, ◌*◌, ◌+◌, ◌<◌, ◌==◌, ◌∙◌, ◌∷◌, ◌≡◌, ◌≢◌, ◌≤◌, ◌⊎◌,
}
use g_io_t_edge_gateway.Coordination.Servicer.Membership.{
  Event, WellFormed, World, beats, gossips, joins, leaves, node_of, pings, run, run-WellFormed,
  scans, step, step-WellFormed, step-heart,
}
use g_io_t_edge_gateway.Dict.Laws.{lookup-insert, lookup-modify}
use g_io_t_edge_gateway.Coordination.ClusterState.{
  ClusterNode, NodeStatus, add_node, beat, dead, get_node, is_final, leaving, mark_leaving,
  set_status, update_node_heartbeat,
}
use g_io_t_edge_gateway.Coordination.ClusterState.Nodes.{Indexed, node_id-lookup}
use g_io_t_edge_gateway.Coordination.Heartbeat.{HeartbeatService}
use g_io_t_edge_gateway.Coordination.Heartbeat.Verdict.{check_timeouts-verdict, verdict}
use g_io_t_edge_gateway.Coordination.Gossip.{handle_ping}
use g_io_t_edge_gateway.Coordination.Gossip.Rounds.{gossip_round-cases, suspected}
use g_io_t_edge_gateway.Coordination.Servicer.{fresh_node, join_cluster, leave_cluster}
use g_io_t_edge_gateway.Coordination.Servicer.Handlers.{upsert_lem}

-- The event is a join or a leave of the node `id`.
abbrev pub reenters : String → Event → Bool
reenters id (joins j address caps) = j == id
reenters id (leaves j) = j == id
reenters id _ = false

-- The event is a sign of life, a join or a leave of the node `id`.
abbrev pub concerns : String → Event → Bool
concerns id (beats j address) = j == id
concerns id (pings j) = j == id
concerns id (joins j address caps) = j == id
concerns id (leaves j) = j == id
concerns id _ = false

abbrev pub HasStatus : World → String → NodeStatus → Type 0
HasStatus w id st = (n : ClusterNode) × (node_of w id ≡ some n) × (n.status ≡ st)

step-dead :
    (w : World) (now : ℕ) (e : Event) (id : String)
    → WellFormed w
    → reenters id e ≡ false
    → HasStatus w id dead
    → HasStatus (step w (now, e)) id dead
unfolding step join_cluster leave_cluster handle_ping add_node mark_leaving update_node_heartbeat
    get_node
step-dead w now (beats j address) id ix h (n, there, status) = (
  if j == id then beat now n else n,
  ground (arith, upsert_lem now w.cluster j address id, string_eq.beq_iff j id),
  ground arith,
)
step-dead w now (joins j address caps) id ix h (n, there, status) =
    (n, ground (arith, lookup-insert j id (fresh_node now j address caps) w.cluster.nodes), status)
step-dead w now (leaves j) id ix h (n, there, status) =
    (n, ground (arith, lookup-modify j id (set_status leaving) w.cluster.nodes), status)
step-dead w now (pings j) id ix h (n, there, status) = (
  if j == id then beat now n else n,
  ground (arith, lookup-modify j id (beat now) w.cluster.nodes, string_eq.beq_iff j id),
  ground arith,
)
step-dead w now scans id ix h (n, there, status) = (
  n,
  unfold verdict in ground (arith, check_timeouts-verdict w.heart now w.cluster id ix),
  status,
)
step-dead w now (gossips sample fate) id ix h (n, there, status) =
    (n, ground (arith, gossip_round-cases sample fate w.gossip w.cluster id), status)

-- A node that has been declared DEAD stays DEAD through any heartbeats, pings, scans and gossip
-- rounds, its own heartbeats included, until it joins or leaves the cluster.
pub dead_stays :
    (w : World) (es : List (ℕ × Event)) (id : String)
    → WellFormed w
    → All (λ e. reenters id e.1 ≡ false) es
    → HasStatus w id dead
    → HasStatus (run w es) id dead
unfolding run
dead_stays w [] id ix calm h = h
dead_stays w ((now, e) ∷ es) id ix calm h =
    dead_stays (step w (now, e)) es id (step-WellFormed w (now, e) ix) calm.1
      (step-dead w now e id ix calm.0 h)

-- The node is known, is not leaving, and has been silent since `t`, unless it is DEAD.
abbrev Silent : World → String → ℕ → Type 0
Silent w id t =
    (n : ClusterNode) × (node_of w id ≡ some n)
    × ((n.status ≡ dead) ⊎ ((is_final n.status ≡ false) × (n.last_heartbeat ≤ t)))

step-Silent :
    (w : World) (now : ℕ) (e : Event) (id : String) (t : ℕ)
    → WellFormed w
    → concerns id e ≡ false
    → Silent w id t
    → Silent (step w (now, e)) id t
unfolding step join_cluster leave_cluster handle_ping add_node mark_leaving update_node_heartbeat
    get_node
step-Silent w now (beats j address) id t ix h (n, there, quiet) =
    (n, ground (arith, upsert_lem now w.cluster j address id), quiet)
step-Silent w now (joins j address caps) id t ix h (n, there, quiet) =
    (n, ground (arith, lookup-insert j id (fresh_node now j address caps) w.cluster.nodes), quiet)
step-Silent w now (leaves j) id t ix h (n, there, quiet) =
    (n, ground (arith, lookup-modify j id (set_status leaving) w.cluster.nodes), quiet)
step-Silent w now (pings j) id t ix h (n, there, quiet) =
    (n, ground (arith, lookup-modify j id (beat now) w.cluster.nodes), quiet)
step-Silent w now scans id t ix h (n, there, quiet) = (
  verdict w.heart now n,
  ground (arith, check_timeouts-verdict w.heart now w.cluster id ix),
  unfold verdict in ground arith,
)
step-Silent w now (gossips sample fate) id t ix h (n, there, quiet) =
    elim (gossip_round-cases sample fate w.gossip w.cluster id) [
      | inl same ↦ (n, ground (arith, same), quiet)
      | inr sus ↦ (suspected n, ground (arith, sus), ground arith)
    ]

run-Silent :
    (w : World) (es : List (ℕ × Event)) (id : String) (t : ℕ)
    → WellFormed w
    → All (λ e. concerns id e.1 ≡ false) es
    → Silent w id t
    → Silent (run w es) id t
unfolding run
run-Silent w [] id t ix calm h = h
run-Silent w ((now, e) ∷ es) id t ix calm h =
    run-Silent (step w (now, e)) es id t (step-WellFormed w (now, e) ix) calm.1
      (step-Silent w now e id t ix calm.0 h)

run-heart : (w : World) (es : List (ℕ × Event)) → (run w es).heart ≡ w.heart
unfolding run
run-heart w [] = refl
run-heart w (e ∷ es) = run-heart (step w e) es ∙ step-heart w e

-- The failure detector is complete: a remote node that is not leaving and gives no sign of life
-- is DEAD after a scan more than twice the timeout later, whatever else happens in between.
pub silent_is_dead :
    (w : World) (es : List (ℕ × Event)) (now : ℕ) (id : String) (n : ClusterNode)
    → WellFormed w
    → node_of w id ≡ some n
    → is_final n.status ≡ false
    → id ≢ w.heart.node_id
    → All (λ e. concerns id e.1 ≡ false) es
    → 2 * w.heart.timeout + n.last_heartbeat < now
    → HasStatus (step (run w es) (now, scans)) id dead
unfolding step
silent_is_dead w es now id n ix there live remote calm late =
    let (m, found, quiet) =
      run-Silent w es id n.last_heartbeat ix calm (n, there, inr (live, omega arith)) in
    let still : Indexed (run w es).cluster.nodes = run-WellFormed w es ix in
    let own : m.node_id ≡ id = unfold get_node in node_id-lookup id _ m still found in
    (
      verdict (run w es).heart now m,
      ground
          (arith, check_timeouts-verdict (run w es).heart now (run w es).cluster id still, found),
      unfold verdict in
          ground (
            arith,
            ap (λ (h : HeartbeatService). h.timeout) (run-heart w es),
            ap (λ (h : HeartbeatService). h.node_id) (run-heart w es),
            ==_ne id w.heart.node_id remote,
          ),
    )
