-- ===== src/Scheduler/Tests.antt =====
-- The theorems on the scheduler over decimal numbers with four digits.
use g_io_t_edge_gateway.Prelude.{
  All, Any, List, String, [], arith, false, keep, ltb, nat_eq, none, not, refl, some, string_eq,
  suc, true, zero, ℕ, ◌*◌, ◌+◌, ◌-◌, ◌/◌, ◌==◌, ◌∷◌, ◌≡◌, ◌⊎◌,
}
use g_io_t_edge_gateway.Dict.{IsDict, lookup, values}
use g_io_t_edge_gateway.Floats.{FloatLaws, Floats}
use g_io_t_edge_gateway.Scheduler.Task.{
  InferenceTask, NodeResources, Policy, Resources, TaskPlacement, cloud,
}
use g_io_t_edge_gateway.Scheduler.Monitor.{ResourceMonitor, sort_by_cpu}
use g_io_t_edge_gateway.Scheduler.Engine.{SchedulerEngine, choose}
use g_io_t_edge_gateway.Scheduler.Engine.Best.{First, answers, choose-First}
use g_io_t_edge_gateway.Scheduler.Adaptive.Threshold.{InBounds, observe, threshold_stays}
use g_io_t_edge_gateway.Scheduler.Adaptive.Nodes.{find_best-pick_edge}
use g_io_t_edge_gateway.Scheduler.Policies.{
  Balanced, CostAware, balanced, cloud_score, edge_score, edge_target, is_overloaded, least_loaded,
  on_cloud, pick_edge,
}
use g_io_t_edge_gateway.Scheduler.Policies.Combined.{balanced_lem}
use g_io_t_edge_gateway.Scheduler.Adaptive.{find_best, init}

abbrev scale : ℕ → ℕ
scale zero = 10000
scale (suc zero) = 1000
scale (suc (suc zero)) = 100
scale (suc (suc (suc k))) = 1

-- The number x stands for (x - 1) / 10000; 0 stands for the number below 0.
abbrev pub fixed : Floats
fixed = record {
  Float = ℕ;
  lt = ltb;
  le = λ a b. not (ltb b a);
  eq = λ a b. a == b;
  add = λ a b. a + b - 1;
  sub = λ a b. a - (b - 1);
  mul = λ a b. suc ((a - 1) * (b - 1) / 10000);
  div = λ a b. suc ((a - 1) * 10000 / (b - 1));
  lit = λ n k. suc (n * scale k);
  minus_one = 0;
  round = λ a. a;
}

lt_scale : (m n k : ℕ) → ltb (suc (m * scale k)) (suc (n * scale k)) ≡ ltb m n
lt_scale m n zero = ground arith
lt_scale m n (suc zero) = ground arith
lt_scale m n (suc (suc zero)) = ground arith
lt_scale m n (suc (suc (suc k))) = ground arith

fixed-laws : FloatLaws fixed
fixed-laws = record {
  lt_irrefl = λ a. ground arith;
  lt_trans = λ a b c h k. ground arith;
  lt_compare = λ a b c h. ground arith;
  le_lt = λ a b. refl;
  lt_lit = lt_scale;
  minus_one_lit = λ n k. ground arith;
}

abbrev report : String → ℕ → ℕ → NodeResources fixed
report id cpu seen = record {
  node_id = id;
  node_address = id;
  cpu_usage_percent = fixed.lit cpu 0;
  memory_usage_percent = fixed.lit 40 0;
  gpu_usage_percent = fixed.lit 0 0;
  pending_tasks = 0;
  avg_inference_latency_ms = fixed.lit 8 0;
  loaded_models = [];
  last_reported = seen;
}

abbrev reports : Resources fixed
reports = ("a", report "a" 95 10) ∷ ("b", report "b" 50 20) ∷ ("c", report "c" 30 30) ∷ []

abbrev task : InferenceTask fixed
task = record {
  task_id = "t";
  model_name = "m";
  model_version = "1";
  input_size_bytes = 100;
  priority = "normal";
  max_latency_ms = fixed.lit 100 0;
  requesting_node_id = "a";
}

abbrev monitor : ResourceMonitor fixed
monitor = record { nodes = reports; stale_threshold = 100 }

abbrev policies : List (Policy fixed)
policies =
    (λ t r. none)
    ∷ (λ t r. some (on_cloud fixed t "x" (fixed.lit 5 0) (fixed.lit 1 1)))
    ∷ (λ t r. some (on_cloud fixed t "y" (fixed.lit 5 0) (fixed.lit 2 1)))
    ∷ []

abbrev engine : SchedulerEngine fixed
engine = record { policies = policies; task_queue = task ∷ []; results = [] }

abbrev balance : Balanced fixed
balance = record { latency_weight = fixed.lit 6 1; cost_weight = fixed.lit 4 1 }

abbrev costs : CostAware fixed
costs = record {
  cloud_endpoint = "cloud";
  cloud_cost_factor = fixed.lit 1 1;
  small_model_threshold = 1000;
}

reports-IsDict : IsDict reports
unfolding lookup
reports-IsDict = (refl, (refl, (refl, tt)))

choose-First_example :
    First fixed (choose fixed task reports policies) (answers fixed task reports policies)
unfolding answers
choose-First_example =
    (choose-First fixed fixed-laws task reports policies (refl, (refl, tt))).1 (λ e. cc)

balanced_lem_example :
    let healthy = keep (λ n. not (is_overloaded fixed n)) (values reports) in
    (q : TaskPlacement fixed) × (balanced fixed balance task reports ≡ some q)
    × (((q.target ≡ cloud)
          × All
              (λ n. ltb (edge_score fixed balance task n) (cloud_score fixed balance task) ≡ true)
              healthy)
        ⊎ ((n : NodeResources fixed) × Any (λ m. n ≡ m) healthy
            × All
                (λ m.
                  ltb (edge_score fixed balance task n) (edge_score fixed balance task m) ≡ false)
                healthy
            × (not (ltb (edge_score fixed balance task n) (cloud_score fixed balance task)) ≡ true)
            × (q.target_node_id ≡ n.node_id)
            × (q.target ≡ edge_target fixed (n.node_id == "a"))))
unfolding keep edge_score
balanced_lem_example = balanced_lem fixed balance task fixed-laws reports (refl, (refl, tt))

find_best-pick_edge_example :
    find_best fixed (init fixed (fixed.lit 100 0) "cloud" 10) "a" none (values reports)
    ≡ some (report "c" 30 30)
unfolding pick_edge keep init least_loaded sort_by_cpu
find_best-pick_edge_example =
    find_best-pick_edge fixed fixed-laws (init fixed (fixed.lit 100 0) "cloud" 10) "a"
      (values reports)

threshold_stays_example :
    InBounds fixed
      (observe fixed (init fixed (fixed.lit 100 0) "cloud" 2) (fixed.lit 8 0 ∷ fixed.lit 99 0 ∷ []))
threshold_stays_example =
    threshold_stays fixed fixed-laws ((λ x. ground arith), (λ x. ground arith)) (fixed.lit 100 0)
      "cloud" 2 (fixed.lit 8 0 ∷ fixed.lit 99 0 ∷ [])
