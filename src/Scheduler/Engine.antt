-- ===== src/Scheduler/Engine.antt =====
-- services/scheduler_engine.py. The queue is a list, oldest task first.
pub mod Best
use g_io_t_edge_gateway.Prelude.{
  List, Option, String, [], if◌then◌else◌, nat_eq, none, some, string_eq, ℕ, ◌++◌, ◌+◌, ◌∷◌,
}
use g_io_t_edge_gateway.Dict.{Dict, insert, lookup}
use g_io_t_edge_gateway.Floats.{Floats}
use g_io_t_edge_gateway.Scheduler.Task.{InferenceTask, Policy, Resources, TaskPlacement, cloud}
use g_io_t_edge_gateway.Scheduler.Monitor.{ResourceMonitor, get_resource_map}

module _ (f : Floats) where
  pub record SchedulerEngine : Type 0 where
    pub policies : List (Policy f)
    pub task_queue : List (InferenceTask f)
    pub results : Dict String (TaskPlacement f)

  -- The best placement so far and its score.
  abbrev pub Best : Type 0
  Best = Option (TaskPlacement f) × f.Float

  consider : Best → Option (TaskPlacement f) → Best
  consider best none = best
  consider (best, best_score) (some p) =
      if f.lt best_score p.score then (some p, p.score) else (best, best_score)

  try_policies : InferenceTask f → Resources f → Best → List (Policy f) → Best
  unfolding consider
  try_policies task resources best [] = best
  try_policies task resources best (p ∷ ps) =
      try_policies task resources (consider best (p task resources)) ps

  abbrev pub fallback : InferenceTask f → TaskPlacement f
  fallback task = record {
    task_id = task.task_id;
    target = cloud;
    target_node_id = "";
    target_endpoint = "";
    estimated_latency_ms = f.lit 0 0;
    score = f.lit 0 0;
  }

  abbrev pub or_fallback : InferenceTask f → Option (TaskPlacement f) → TaskPlacement f
  or_fallback task none = fallback task
  or_fallback task (some p) = p

  unfoldable pub choose : InferenceTask f → Resources f → List (Policy f) → TaskPlacement f
  unfolding try_policies
  choose task resources policies =
      or_fallback task (try_policies task resources (none, f.minus_one) policies).0

  unfoldable pub submit_task :
      ℕ → ResourceMonitor f → SchedulerEngine → InferenceTask f → SchedulerEngine × TaskPlacement f
  unfolding choose
  submit_task now monitor e task =
      let placement = choose task (get_resource_map f now monitor) e.policies in
      (record e { results = insert task.task_id placement e.results }, placement)

  unfoldable pub enqueue_task : SchedulerEngine → InferenceTask f → SchedulerEngine
  enqueue_task e task = record e { task_queue = e.task_queue ++ task ∷ [] }

  drain_tasks :
      ℕ → ResourceMonitor f → SchedulerEngine → ℕ → List (InferenceTask f) → SchedulerEngine × ℕ
  drain_tasks now monitor e processed [] = (record e { task_queue = [] }, processed)
  drain_tasks now monitor e processed (task ∷ tasks) =
      drain_tasks now monitor (submit_task now monitor (record e { task_queue = tasks }) task).0
        (processed + 1) tasks

  -- No task is added during the drain: `submit_task` awaits nothing.
  unfoldable pub drain_queue : ℕ → ResourceMonitor f → SchedulerEngine → SchedulerEngine × ℕ
  unfolding drain_tasks submit_task
  drain_queue now monitor e = drain_tasks now monitor e 0 e.task_queue

  unfoldable pub get_result : SchedulerEngine → String → Option (TaskPlacement f)
  get_result e id = lookup id e.results
