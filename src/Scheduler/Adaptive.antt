-- ===== src/Scheduler/Adaptive.antt =====
-- services/adaptive_scheduler.py.
pub mod Threshold
pub mod Nodes
use g_io_t_edge_gateway.Prelude.{
  Bool, List, Option, String, [], drop, if◌then◌else◌, is_empty, length, nat_eq, none, not, some,
  string_eq, ℕ, ◌&&◌, ◌++◌, ◌-◌, ◌==◌, ◌||◌, ◌∷◌,
}
use g_io_t_edge_gateway.Dict.{values}
use g_io_t_edge_gateway.Floats.{Floats, float_max, float_min}
use g_io_t_edge_gateway.Scheduler.Task.{InferenceTask, NodeResources, Policy, TaskPlacement}
use g_io_t_edge_gateway.Scheduler.Policies.{on_cloud, on_edge}

module _ (f : Floats) where
  open f use {Float, lt, le, eq, add, sub, mul, div, lit}

  pub record AdaptiveScheduler : Type 0 where
    pub edge_latency_sla_ms : Float
    pub cloud_endpoint : String
    -- `deque(maxlen=window_size)`, oldest first.
    pub window_size : ℕ
    pub latency_observations : List Float
    pub ema_latency : Float
    pub dynamic_cpu_threshold : Float

  unfoldable pub init : Float → String → ℕ → AdaptiveScheduler
  init sla endpoint window = record {
    edge_latency_sla_ms = sla;
    cloud_endpoint = endpoint;
    window_size = window;
    latency_observations = [];
    ema_latency = lit 0 1;
    dynamic_cpu_threshold = lit 800 1;
  }

  -- A deque drops its oldest entries once it is longer than `maxlen`.
  unfoldable pub push_bounded : ℕ → List Float → Float → List Float
  push_bounded window xs x = drop (length (xs ++ x ∷ []) - window) (xs ++ x ∷ [])

  unfoldable pub adjust_thresholds : AdaptiveScheduler → AdaptiveScheduler
  adjust_thresholds a =
      let ratio = div a.ema_latency a.edge_latency_sla_ms in
      if le a.ema_latency (lit 0 0)
      then a
      else if lt ratio (lit 5 1)
      then record a {
        dynamic_cpu_threshold = float_min f (lit 900 1) (add a.dynamic_cpu_threshold (lit 10 1));
      }
      else if lt (lit 9 1) ratio
      then record a {
        dynamic_cpu_threshold = float_max f (lit 600 1) (sub a.dynamic_cpu_threshold (lit 20 1));
      }
      else a

  -- `_EMA_ALPHA`; the code writes `1 - _EMA_ALPHA`.
  abbrev pub ema_alpha : Float
  ema_alpha = lit 3 1

  unfoldable pub record_latency : AdaptiveScheduler → Float → AdaptiveScheduler
  unfolding adjust_thresholds push_bounded
  record_latency a latency = adjust_thresholds (record a {
    latency_observations = push_bounded a.window_size a.latency_observations latency;
    ema_latency =
        if eq a.ema_latency (lit 0 1)
        then latency
        else add (mul ema_alpha latency) (mul (sub (lit 1 0) ema_alpha) a.ema_latency);
  })

  abbrev pub is_node_overloaded : AdaptiveScheduler → NodeResources f → Bool
  is_node_overloaded a n =
      lt a.dynamic_cpu_threshold n.cpu_usage_percent || lt (lit 900 1) n.memory_usage_percent

  -- The better of the best node so far and another one.
  abbrev pub better : Option (NodeResources f) → NodeResources f → NodeResources f
  better none n = n
  better (some best) n = if lt n.cpu_usage_percent best.cpu_usage_percent then n else best

  -- The loop over the nodes; the requesting node ends it.
  unfoldable pub find_best :
      AdaptiveScheduler
      → String
      → Option (NodeResources f)
      → List (NodeResources f)
      → Option (NodeResources f)
  find_best a requesting best [] = best
  find_best a requesting best (n ∷ ns) =
      let rest =
        find_best a requesting (if is_node_overloaded a n then best else some (better best n)) ns in
      if not (is_node_overloaded a n) && n.node_id == requesting then some n else rest

  -- `avg or ema`.
  abbrev pub latency_or_ema : AdaptiveScheduler → NodeResources f → Float
  latency_or_ema a n =
      if eq n.avg_inference_latency_ms (lit 0 0) then a.ema_latency else n.avg_inference_latency_ms

  unfoldable pub edge_score : AdaptiveScheduler → Float
  edge_score a =
      let ratio =
        if lt (lit 0 0) a.ema_latency then div a.ema_latency a.edge_latency_sla_ms else lit 3 1 in
      float_max f (lit 0 1) (float_min f (lit 10 1) (sub (lit 10 1) (mul ratio (lit 5 1))))

  abbrev pub latency_ok : AdaptiveScheduler → Bool
  latency_ok a = le a.ema_latency a.edge_latency_sla_ms || eq a.ema_latency (lit 0 1)

  abbrev pub adaptive_choice :
      AdaptiveScheduler → InferenceTask f → Option (NodeResources f) → TaskPlacement f
  adaptive_choice a task none = on_cloud f task a.cloud_endpoint (lit 500 1) (lit 4 1)
  adaptive_choice a task (some n) =
      if latency_ok a
      then on_edge f task n (latency_or_ema a n) (edge_score a)
      else on_cloud f task a.cloud_endpoint (lit 500 1) (lit 4 1)

  unfoldable pub adaptive : AdaptiveScheduler → Policy f
  unfolding find_best edge_score
  adaptive a task resources =
      if is_empty resources
      then some (on_cloud f task a.cloud_endpoint (lit 500 1) (lit 5 1))
      else some
          (adaptive_choice a task (find_best a task.requesting_node_id none (values resources)))
