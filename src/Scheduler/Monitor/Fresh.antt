-- ===== src/Scheduler/Monitor/Fresh.antt =====
-- resource_monitor.py: which reports the scheduler sees.
use g_io_t_edge_gateway.Prelude.{
  Option, String, [], arith, if◌then◌else◌, leb, nat_eq, none, refl, some, string_eq, ℕ, ◌+◌, ◌-◌,
  ◌==◌, ◌∷◌, ◌≡◌, ◌≤◌,
}
use g_io_t_edge_gateway.Dict.{IsDict, insert, lookup}
use g_io_t_edge_gateway.Dict.Laws.{insert-IsDict, lookup-insert}
use g_io_t_edge_gateway.Floats.{Floats}
use g_io_t_edge_gateway.Scheduler.Task.{NodeResources, Resources}
use g_io_t_edge_gateway.Scheduler.Monitor.{
  ResourceMonitor, fresh_nodes, get_report, get_resource_map, update,
}

module _ (f : Floats) where
  -- A report is shown while it is no older than the threshold.
  unfoldable pub shown : ℕ → ℕ → Option (NodeResources f) → Option (NodeResources f)
  shown now threshold none = none
  shown now threshold (some n) = if leb (now - n.last_reported) threshold then some n else none

  -- What is found after the loop has read the items, with `o` from before.
  abbrev or_else : Option (NodeResources f) → Option (NodeResources f) → Option (NodeResources f)
  or_else none o = o
  or_else (some n) o = some n

  lookup-fresh_nodes :
      (now threshold : ℕ) (active items : Resources f) (k : String)
      → IsDict items
      → lookup k (fresh_nodes f now threshold active items)
        ≡ or_else (shown now threshold (lookup k items)) (lookup k active)
  unfolding fresh_nodes shown lookup
  lookup-fresh_nodes now threshold active [] k h = refl
  lookup-fresh_nodes now threshold active ((id, n) ∷ items) k h = ground (
    arith,
    lookup-fresh_nodes now threshold
        (if leb (now - n.last_reported) threshold then insert id n active else active) items k h.1,
    lookup-insert id k n active,
    string_eq.beq_iff id k,
  )

  -- The resource map has, under each node id, the last report exactly if it is no older than the
  -- threshold.
  pub lookup-get_resource_map :
      (now : ℕ) (m : ResourceMonitor f) (k : String)
      → IsDict m.nodes
      → lookup k (get_resource_map f now m) ≡ shown now m.stale_threshold (get_report f m k)
  unfolding get_resource_map get_report lookup
  lookup-get_resource_map now m k h =
      ground (arith, lookup-fresh_nodes now m.stale_threshold [] m.nodes k h)

  -- A report is in the resource map, stamped with its arrival, until the threshold has passed, and
  -- no longer; it replaces the node's last report and changes no other node's entry.
  pub get_resource_map-update :
      (now later : ℕ) (m : ResourceMonitor f) (report : NodeResources f) (k : String)
      → IsDict m.nodes
      → now ≤ later
      → lookup k (get_resource_map f later (update f now m report)) ≡ (
          if report.node_id == k
          then (if leb later (now + m.stale_threshold)
              then some (record report { last_reported = now })
              else none)
          else lookup k (get_resource_map f later m))
  unfolding update get_report shown
  get_resource_map-update now later m report k h order = ground (
    arith,
    lookup-get_resource_map later (update f now m report) k
        (insert-IsDict report.node_id (record report { last_reported = now }) m.nodes h),
    lookup-get_resource_map later m k h,
    lookup-insert report.node_id k (record report { last_reported = now }) m.nodes,
  )
