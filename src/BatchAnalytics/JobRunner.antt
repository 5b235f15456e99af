-- ===== src/BatchAnalytics/JobRunner.antt =====
-- services/job_runner.py and routers/jobs.py: one job, its thread and the clients that cancel it,
-- interleaved. A schedule is the list of what happens, one access of the shared job after another.
use Prim.Native.String.{◌++◌ as str_append}
use g_io_t_edge_gateway.Prelude.{
  Bool, List, Option, String, [], false, if◌then◌else◌, nat_eq, none, some, string_eq, true, ℕ,
  ◌==◌, ◌∷◌,
}
use g_io_t_edge_gateway.Dict.{Dict, insert}

pub data JobStatus : Type 0 where
  pending running completed failed cancelled : JobStatus

abbrev pub is_cancelled : JobStatus → Bool
is_cancelled pending = false
is_cancelled running = false
is_cancelled completed = false
is_cancelled failed = false
is_cancelled cancelled = true

-- `job.status in ("pending", "running")`.
abbrev pub can_cancel : JobStatus → Bool
can_cancel pending = true
can_cancel running = true
can_cancel completed = false
can_cancel failed = false
can_cancel cancelled = false

-- The dict that a Spark job returns: two keys of it, and all of it as text.
pub record Results : Type 0 where
  pub rows_processed : Option ℕ
  pub summary : Option String
  pub whole : String

-- How the Spark job of a job ends.
pub data Run : Type 0 where
  returns : Results → Run
  raises : String → Run

pub record SparkJob : Type 0 where
  pub job_id : String
  pub job_type : String
  pub params : String
  pub status : JobStatus
  pub result_summary : Option String
  pub completed_at : Option ℕ
  pub error_message : Option String
  pub rows_processed : ℕ

-- Where the thread is in `_execute_job`.
pub data At : Type 0 where
  queued working finished : At
  ran : Run → At
  storing completing : Results → At
  stamping : At
  failing : String → At

-- The job, its thread, whether a DELETE has passed its check, and the result store.
pub record Runner : Type 0 where
  pub job : SparkJob
  pub at : At
  pub deleting : Bool
  pub results : Dict String Results

-- The time of submission is left out. The four modules of spark_jobs, each applied to the params of a job.
pub record SparkJobs : Type 0 where
  pub sensor_aggregation : String → Run
  pub anomaly_report : String → Run
  pub device_health : String → Run
  pub trend_analysis : String → Run

-- `match job.job_type`.
unfoldable pub run_job : SparkJobs → SparkJob → Run
run_job spark job =
    if job.job_type == "sensor_aggregation"
    then spark.sensor_aggregation job.params
    else if job.job_type == "anomaly_report"
    then spark.anomaly_report job.params
    else if job.job_type == "device_health"
    then spark.device_health job.params
    else if job.job_type == "trend_analysis"
    then spark.trend_analysis job.params
    else raises (str_append "Unknown job type: " job.job_type)

-- `result.get("summary", result)` and `result.get("rows_processed", 0)`.
abbrev pub summary_of : Results → String
summary_of r = elim r.summary [ some text ↦ text | none ↦ r.whole ]

abbrev pub rows_of : Results → ℕ
rows_of r = elim r.rows_processed [ some n ↦ n | none ↦ 0 ]

abbrev pub set_status : JobStatus → Runner → Runner
set_status status w = record w { job = record w.job { status = status } }

-- The next step of the thread. The check of the status stands on both ways out of the Spark job.
abbrev pub advance : SparkJobs → ℕ → At → Runner → Runner
advance spark now queued w = record (set_status running w) { at = working }
advance spark now working w = record w { at = ran (run_job spark w.job) }
advance spark now (ran (returns r)) w =
    if is_cancelled w.job.status then record w { at = finished } else record w { at = storing r }
advance spark now (ran (raises e)) w =
    if is_cancelled w.job.status then record w { at = finished } else record w { at = failing e }
advance spark now (storing r) w = record w {
  results = insert w.job.job_id r w.results;
  at = completing r;
}
advance spark now (completing r) w = record w {
  job = record w.job {
    result_summary = some (summary_of r);
    rows_processed = rows_of r;
    status = completed;
  };
  at = stamping;
}
advance spark now stamping w = record w {
  job = record w.job { completed_at = some now };
  at = finished;
}
advance spark now (failing e) w = record w {
  job = record w.job { status = failed; error_message = some e; completed_at = some now };
  at = finished;
}
advance spark now finished w = w

pub data Action : Type 0 where
  -- A step of the thread.
  thread : ℕ → Action
  -- The check of a DELETE, and its `cancel_job`.
  checks : Action
  cancels : ℕ → Action

abbrev pub cancel_job : ℕ → Runner → Runner
cancel_job now w = record w {
  job = record w.job { status = cancelled; completed_at = some now };
  deleting = false;
}

unfoldable pub act : SparkJobs → Action → Runner → Runner
act spark (thread now) w = advance spark now w.at w
act spark checks w = record w { deleting = can_cancel w.job.status }
act spark (cancels now) w = if w.deleting then cancel_job now w else w

unfoldable pub acts : SparkJobs → List Action → Runner → Runner
unfolding act
acts spark [] w = w
acts spark (a ∷ as') w = acts spark as' (act spark a w)

-- `submit_job`, after which the executor has the thread.
unfoldable pub submit_job : String → String → String → Dict String Results → Runner
submit_job id job_type params results = record {
  job = record {
    job_id = id;
    job_type = job_type;
    params = params;
    status = pending;
    result_summary = none;
    completed_at = none;
    error_message = none;
    rows_processed = 0;
  };
  at = queued;
  deleting = false;
  results = results;
}
