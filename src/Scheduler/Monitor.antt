-- ===== src/Scheduler/Monitor.antt =====
-- services/resource_monitor.py. Ages and the threshold are microseconds.
pub mod Fresh
use g_io_t_edge_gateway.Prelude.{
  List, Option, String, [], if◌then◌else◌, leb, length, nat_eq, string_eq, ℕ, ◌-◌, ◌∷◌,
}
use g_io_t_edge_gateway.Dict.{insert, lookup, values}
use g_io_t_edge_gateway.Floats.{Floats}
use g_io_t_edge_gateway.Scheduler.Task.{NodeResources, Resources}

pub record ResourceMonitor (f : Floats) : Type 0 where
  pub nodes : Resources f
  pub stale_threshold : ℕ

module _ (f : Floats) where
  unfoldable pub update : ℕ → ResourceMonitor f → NodeResources f → ResourceMonitor f
  update now m report = record m {
    nodes = insert report.node_id (record report { last_reported = now }) m.nodes;
  }

  -- The loop over the items; `active` is the dict that it builds.
  fresh_nodes : ℕ → ℕ → Resources f → Resources f → Resources f
  fresh_nodes now threshold active [] = active
  fresh_nodes now threshold active ((id, n) ∷ items) =
      fresh_nodes now threshold
        (if leb (now - n.last_reported) threshold then insert id n active else active) items

  unfoldable pub get_resource_map : ℕ → ResourceMonitor f → Resources f
  unfolding fresh_nodes
  get_resource_map now m = fresh_nodes now m.stale_threshold [] m.nodes

  insert_by_cpu : NodeResources f → List (NodeResources f) → List (NodeResources f)
  insert_by_cpu n [] = n ∷ []
  insert_by_cpu n (x ∷ xs) =
      if f.lt x.cpu_usage_percent n.cpu_usage_percent then x ∷ insert_by_cpu n xs else n ∷ x ∷ xs

  -- `nodes.sort(key=lambda n: n.cpu_usage_percent)`, a stable sort.
  unfoldable pub sort_by_cpu : List (NodeResources f) → List (NodeResources f)
  unfolding insert_by_cpu
  sort_by_cpu [] = []
  sort_by_cpu (x ∷ xs) = insert_by_cpu x (sort_by_cpu xs)

  unfoldable pub get_healthy_nodes : ℕ → ResourceMonitor f → List (NodeResources f)
  unfolding get_resource_map sort_by_cpu
  get_healthy_nodes now m = sort_by_cpu (values (get_resource_map now m))

  unfoldable pub get_report : ResourceMonitor f → String → Option (NodeResources f)
  get_report m id = lookup id m.nodes

  unfoldable pub node_count : ResourceMonitor f → ℕ
  node_count m = length m.nodes
