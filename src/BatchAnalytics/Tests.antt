-- ===== src/BatchAnalytics/Tests.antt =====
-- The jobs at concrete inputs.
use g_io_t_edge_gateway.Prelude.{List, [], arith, nat_eq, refl, some, string_eq, true, ℕ, ◌∷◌, ◌≡◌}
use g_io_t_edge_gateway.BatchAnalytics.JobRunner.{
  Action, Results, Runner, SparkJobs, act, acts, cancelled, cancels, checks, completed, finished,
  queued, raises, returns, run_job, storing, submit_job, thread, working,
}
use g_io_t_edge_gateway.BatchAnalytics.Cancellation.{IsEnded, job_ends}
use g_io_t_edge_gateway.BatchAnalytics.Outcome.{
  IsLate, before_start, before_store, cancel_holds, cancel_overwritten, six, threads,
}

abbrev report : Results
report = record { rows_processed = some 3; summary = some "three rows"; whole = "{}" }

-- A Spark that answers aggregations and fails at all else.
abbrev spark : SparkJobs
spark = record {
  sensor_aggregation = λ params. returns report;
  anomaly_report = λ params. raises "no data";
  device_health = λ params. raises "no data";
  trend_analysis = λ params. raises "no data";
}

abbrev job : Runner
job = submit_job "j1" "sensor_aggregation" "{}" []

abbrev one_of_each : List Action
one_of_each =
    thread 1 ∷ checks ∷ cancels 2 ∷ thread 3 ∷ thread 4 ∷ thread 5 ∷ thread 6 ∷ thread 7 ∷ []

job_ends_example :
    ((acts spark one_of_each job).at ≡ finished) × IsEnded (acts spark one_of_each job)
job_ends_example = job_ends spark "j1" "sensor_aggregation" "{}" [] one_of_each (omega arith)

abbrev at_work : Runner
at_work = acts spark (thread 1 ∷ checks ∷ []) job

at_work_lem : (at_work.at ≡ working) × (at_work.deleting ≡ true)
unfolding acts act submit_job
at_work_lem = (refl, refl)

cancel_holds_example :
    ((acts spark (six 3) (act spark (cancels 2) at_work)).job.status ≡ cancelled)
    × ((acts spark (six 3) (act spark (cancels 2) at_work)).results ≡ at_work.results)
cancel_holds_example = cancel_holds spark 2 (six 3) at_work at_work_lem.0 at_work_lem.1

job_returns : run_job spark job.job ≡ returns report
unfolding run_job submit_job
job_returns = refl

-- The thread has passed its check, and a DELETE as well.
abbrev about_to_store : Runner
about_to_store = acts spark (thread 1 ∷ thread 2 ∷ thread 3 ∷ checks ∷ []) job

about_to_store_lem : (about_to_store.at ≡ storing report) × (about_to_store.deleting ≡ true)
unfolding acts act submit_job run_job
about_to_store_lem = (refl, refl)

about_to_store-IsLate : IsLate spark about_to_store.job about_to_store.at
about_to_store-IsLate = rw about_to_store_lem.0 (before_store report)

abbrev six_times : List ℕ
six_times = 10 ∷ 11 ∷ 12 ∷ 13 ∷ 14 ∷ 15 ∷ []

cancel_overwritten_example :
    ((act spark (cancels 9) about_to_store).job.status ≡ cancelled)
    × ((acts spark (threads six_times) (act spark (cancels 9) about_to_store)).at ≡ finished)
    × ((acts spark (threads six_times) (act spark (cancels 9) about_to_store)).job.status
        ≡ completed)
cancel_overwritten_example =
    cancel_overwritten spark 9 six_times about_to_store about_to_store-IsLate about_to_store_lem.1
      (omega arith)

-- The same before the thread starts.
job-IsLate : IsLate spark job.job queued
job-IsLate = before_start report job_returns
