-- ===== src/Scheduler/Policies.antt =====
-- The policies of policies/: latency_first.py, cost_aware.py and balanced.py. A text that formats
-- floats (`reason`) is left out of a placement.
pub mod Edge
pub mod Combined
use g_io_t_edge_gateway.Prelude.{
  Bool, List, Option, String, [], false, if◌then◌else◌, is_empty, keep, ltb, nat_eq, none, not,
  some, string_eq, true, ℕ, ◌&&◌, ◌*◌, ◌==◌, ◌||◌, ◌∷◌,
}
use g_io_t_edge_gateway.Dict.{values}
use g_io_t_edge_gateway.Floats.{Floats, float_max}
use g_io_t_edge_gateway.Scheduler.Task.{
  InferenceTask, NodeResources, Policy, Resources, Target, TaskPlacement, cloud, edge_local,
  edge_remote,
}
use g_io_t_edge_gateway.Scheduler.Monitor.{sort_by_cpu}

module _ (f : Floats) where
  open f use {Float, lt, le, add, sub, mul, div, lit, minus_one, round}

  -- `_CPU_OVERLOAD_PERCENT` and `_MEMORY_OVERLOAD_PERCENT`.
  abbrev pub cpu_overload : Float
  cpu_overload = lit 850 1

  abbrev pub memory_overload : Float
  memory_overload = lit 900 1

  abbrev pub is_overloaded : NodeResources f → Bool
  is_overloaded n = lt cpu_overload n.cpu_usage_percent || lt memory_overload n.memory_usage_percent

  -- The condition of cost_aware.py, by `<=`.
  abbrev pub is_within : NodeResources f → Bool
  is_within n = le n.cpu_usage_percent cpu_overload && le n.memory_usage_percent memory_overload

  abbrev pub find_node : String → List (NodeResources f) → Option (NodeResources f)
  find_node id [] = none
  find_node id (n ∷ ns) = if n.node_id == id then some n else find_node id ns

  -- `healthy.sort(…)` and `healthy[0]`; `none` where the list is empty.
  unfoldable pub least_loaded : List (NodeResources f) → Option (NodeResources f)
  least_loaded ns = elim (sort_by_cpu f ns) [ [] ↦ none | n ∷ rest ↦ some n ]

  -- The requesting node if it is among the healthy ones, else the least loaded.
  unfoldable pub pick_edge : String → List (NodeResources f) → Option (NodeResources f)
  pick_edge requesting healthy = elim (find_node requesting healthy) [
    | some n ↦ some n
    | none ↦ least_loaded healthy
  ]

  abbrev pub edge_target : Bool → Target
  edge_target true = edge_local
  edge_target false = edge_remote

  -- `avg if avg > 0 else default`.
  abbrev pub latency_or : Float → NodeResources f → Float
  latency_or default n =
      if lt (lit 0 0) n.avg_inference_latency_ms then n.avg_inference_latency_ms else default

  abbrev pub on_edge : InferenceTask f → NodeResources f → Float → Float → TaskPlacement f
  on_edge task n latency score = record {
    task_id = task.task_id;
    target = edge_target (n.node_id == task.requesting_node_id);
    target_node_id = n.node_id;
    target_endpoint = n.node_address;
    estimated_latency_ms = latency;
    score = score;
  }

  abbrev pub on_cloud : InferenceTask f → String → Float → Float → TaskPlacement f
  on_cloud task endpoint latency score = record {
    task_id = task.task_id;
    target = cloud;
    target_node_id = "";
    target_endpoint = endpoint;
    estimated_latency_ms = latency;
    score = score;
  }

  -- LatencyFirstPolicy.evaluate. `healthy[0]` cannot raise: the list is not empty there.
  unfoldable pub latency_first : Policy f
  latency_first task resources =
      let healthy = keep (λ n. not (is_overloaded n)) (values resources) in
      if is_empty resources
      then some (on_cloud task "" (lit 500 1) (lit 30 2))
      else elim (pick_edge task.requesting_node_id healthy) [
        | none ↦ some (on_cloud task "" (lit 500 1) (lit 35 2))
        | some best ↦ some (
            on_edge task best (latency_or (lit 100 1) best)
              (if best.node_id == task.requesting_node_id then lit 90 2 else lit 80 2))
      ]

  pub record CostAware : Type 0 where
    pub cloud_endpoint : String
    pub cloud_cost_factor : Float
    pub small_model_threshold : ℕ

  cost_aware_cloud : CostAware → InferenceTask f → Resources f → TaskPlacement f
  cost_aware_cloud p task resources = on_cloud task p.cloud_endpoint (lit 400 1) (
      float_max f (lit 10 2)
        (if is_empty resources then lit 60 2 else sub (lit 70 2) p.cloud_cost_factor))

  -- CostAwarePolicy.evaluate.
  unfoldable pub cost_aware : CostAware → Policy f
  unfolding cost_aware_cloud
  cost_aware p task resources =
      let healthy = keep is_within (values resources) in
      if ltb task.input_size_bytes p.small_model_threshold
      then elim (pick_edge task.requesting_node_id healthy) [
        | none ↦ some (cost_aware_cloud p task resources)
        | some best ↦ some (
            on_edge task best (latency_or (lit 150 1) best)
              (if best.node_id == task.requesting_node_id then lit 85 2 else lit 75 2))
      ]
      else some (cost_aware_cloud p task resources)

  pub record Balanced : Type 0 where
    pub latency_weight : Float
    pub cost_weight : Float

  abbrev pub small_model_size : ℕ
  small_model_size = 10 * 1024 * 1024

  -- `_latency_score_edge` and `_latency_score_cloud`, from the latency in question.
  unfoldable pub latency_score : Float → InferenceTask f → Float
  latency_score latency task =
      if le task.max_latency_ms latency
      then lit 0 0
      else float_max f (lit 0 0) (sub (lit 10 1) (div latency task.max_latency_ms))

  unfoldable pub cost_score_edge : InferenceTask f → Float
  cost_score_edge task = if ltb task.input_size_bytes small_model_size then lit 90 2 else lit 50 2

  unfoldable pub cost_score_cloud : InferenceTask f → Float
  cost_score_cloud task = if ltb task.input_size_bytes small_model_size then lit 30 2 else lit 70 2

  unfoldable pub combined : Balanced → Float → Float → Float
  combined p latency cost = add (mul p.latency_weight latency) (mul p.cost_weight cost)

  unfoldable pub edge_score : Balanced → InferenceTask f → NodeResources f → Float
  unfolding combined latency_score cost_score_edge
  edge_score p task n =
      combined p (latency_score (latency_or (lit 100 1) n) task) (cost_score_edge task)

  unfoldable pub cloud_score : Balanced → InferenceTask f → Float
  unfolding combined latency_score cost_score_cloud
  cloud_score p task = combined p (latency_score (lit 500 1) task) (cost_score_cloud task)

  -- The loop over the nodes; the state is the best node and its score.
  unfoldable pub best_edge :
      Balanced
      → InferenceTask f
      → Option (NodeResources f) × Float
      → List (NodeResources f)
      → Option (NodeResources f) × Float
  best_edge p task best [] = best
  best_edge p task (node, score) (n ∷ ns) =
      best_edge p task
        (if is_overloaded n
          then (node, score)
          else if lt score (edge_score p task n)
          then (some n, edge_score p task n)
          else (node, score))
        ns

  abbrev pub balanced_choice :
      Balanced → InferenceTask f → Option (NodeResources f) × Float → TaskPlacement f
  balanced_choice p task (none, score) = on_cloud task "" (lit 500 1) (round (cloud_score p task))
  balanced_choice p task (some n, score) =
      if le (cloud_score p task) score
      then on_edge task n (latency_or (lit 100 1) n) (round score)
      else on_cloud task "" (lit 500 1) (round (cloud_score p task))

  -- BalancedPolicy.evaluate.
  unfoldable pub balanced : Balanced → Policy f
  unfolding best_edge
  balanced p task resources =
      some (balanced_choice p task (best_edge p task (none, minus_one) (values resources)))
