-- ===== src/Scheduler/Task.antt =====
-- The domain models of services/resource_monitor.py and services/scheduler_engine.py. The text of
-- a placement's `reason` is left out.
use g_io_t_edge_gateway.Prelude.{List, Option, String, nat_eq, string_eq, ℕ}
use g_io_t_edge_gateway.Dict.{Dict}
use g_io_t_edge_gateway.Floats.{Floats}

pub data Target : Type 0 where
  edge_local edge_remote cloud : Target

pub record NodeResources (f : Floats) : Type 0 where
  pub node_id : String
  pub node_address : String
  pub cpu_usage_percent : f.Float
  pub memory_usage_percent : f.Float
  pub gpu_usage_percent : f.Float
  pub pending_tasks : ℕ
  pub avg_inference_latency_ms : f.Float
  pub loaded_models : List String
  -- Microseconds.
  pub last_reported : ℕ

pub record InferenceTask (f : Floats) : Type 0 where
  pub task_id : String
  pub model_name : String
  pub model_version : String
  pub input_size_bytes : ℕ
  pub priority : String
  pub max_latency_ms : f.Float
  pub requesting_node_id : String

pub record TaskPlacement (f : Floats) : Type 0 where
  pub task_id : String
  pub target : Target
  pub target_node_id : String
  pub target_endpoint : String
  pub estimated_latency_ms : f.Float
  pub score : f.Float

-- A dict of `NodeResources` by node id.
abbrev pub Resources : Floats → Type 0
Resources f = Dict String (NodeResources f)

-- `PlacementPolicy.evaluate` of a policy; `none` where it raises.
abbrev pub Policy : Floats → Type 0
Policy f = InferenceTask f → Resources f → Option (TaskPlacement f)
