-- ===== src/BatchAnalytics/Outcome.antt =====
-- job_runner.py: when a cancellation counts and when the thread overwrites it, and the thread
-- without clients.
use g_io_t_edge_gateway.Prelude.{
  Bool, List, String, [], ap, arith, false, if◌then◌else◌, length, nat_eq, refl, some, string_eq,
  subst, suc, sym, true, ℕ, ◌∷◌, ◌≡◌, ◌≤◌,
}
use g_io_t_edge_gateway.Dict.{Dict, insert}
use g_io_t_edge_gateway.BatchAnalytics.Cancellation.{acts-finished, thread_steps}
use g_io_t_edge_gateway.BatchAnalytics.JobRunner.{
  Action, At, Results, Runner, SparkJob, SparkJobs, act, acts, advance, cancel_job, cancelled,
  cancels, checks, completed, completing, failed, failing, finished, queued, raises, ran, returns,
  rows_of, run_job, running, stamping, storing, submit_job, summary_of, thread, working,
}

-- Between the start of the Spark job and the check of the status, or after the thread.
abbrev IsBeforeCheck : At → Type 0
IsBeforeCheck queued = ⊥
IsBeforeCheck working = Unit
IsBeforeCheck (ran run) = Unit
IsBeforeCheck (storing r) = ⊥
IsBeforeCheck (completing r) = ⊥
IsBeforeCheck stamping = ⊥
IsBeforeCheck (failing e) = ⊥
IsBeforeCheck finished = Unit

-- The job is cancelled in time, and the store is `results`.
abbrev IsHeld : Dict String Results → Runner → Type 0
IsHeld results w = (w.job.status ≡ cancelled) × (w.results ≡ results) × IsBeforeCheck w.at

advance-IsHeld :
    (spark : SparkJobs) (now : ℕ) (results : Dict String Results) (at : At) (w : Runner)
    → w.at ≡ at
    → IsHeld results w
    → IsHeld results (advance spark now at w)
advance-IsHeld spark now results queued w e (c, s, b) = absurd (subst IsBeforeCheck e b)
advance-IsHeld spark now results working w e (c, s, b) = (c, s, tt)
advance-IsHeld spark now results (ran (returns r)) w e (c, s, b) = rw c (refl, s, tt)
advance-IsHeld spark now results (ran (raises text)) w e (c, s, b) = rw c (refl, s, tt)
advance-IsHeld spark now results (storing r) w e (c, s, b) = absurd (subst IsBeforeCheck e b)
advance-IsHeld spark now results (completing r) w e (c, s, b) = absurd (subst IsBeforeCheck e b)
advance-IsHeld spark now results stamping w e (c, s, b) = absurd (subst IsBeforeCheck e b)
advance-IsHeld spark now results (failing text) w e (c, s, b) = absurd (subst IsBeforeCheck e b)
advance-IsHeld spark now results finished w e h = h

act-IsHeld :
    (spark : SparkJobs) (results : Dict String Results) (a : Action) (w : Runner)
    → IsHeld results w
    → IsHeld results (act spark a w)
unfolding act
act-IsHeld spark results (thread now) w h = advance-IsHeld spark now results w.at w refl h
act-IsHeld spark results checks w h = h
act-IsHeld spark results (cancels now) w h = guarded w.deleting
  where
    guarded : (b : Bool) → IsHeld results (if b then cancel_job now w else w)
    guarded true = (refl, h.1, h.2)
    guarded false = h

acts-IsHeld :
    (spark : SparkJobs) (results : Dict String Results) (as' : List Action) (w : Runner)
    → IsHeld results w
    → IsHeld results (acts spark as' w)
unfolding acts
acts-IsHeld spark results [] w h = h
acts-IsHeld spark results (a ∷ as') w h =
    acts-IsHeld spark results as' (act spark a w) (act-IsHeld spark results a w h)

-- A cancellation that comes while the Spark job of a job runs holds: whatever happens after it, the
-- job stays cancelled and its result is not stored.
pub cancel_holds :
    (spark : SparkJobs) (now : ℕ) (as' : List Action) (w : Runner)
    → w.at ≡ working
    → w.deleting ≡ true
    → ((acts spark as' (act spark (cancels now) w)).job.status ≡ cancelled)
      × ((acts spark as' (act spark (cancels now) w)).results ≡ w.results)
unfolding act
cancel_holds spark now as' w at_work deleting =
    let held : IsHeld w.results (act spark (cancels now) w) =
      rw (deleting, act) (refl, refl, subst IsBeforeCheck (sym at_work) tt) in
    let (c, s, b) = acts-IsHeld spark w.results as' (act spark (cancels now) w) held in (c, s)

-- `_execute_job` with nobody else about: the job and the store that it leaves.
unfoldable pub execute_job :
    SparkJobs → ℕ → SparkJob → Dict String Results → SparkJob × Dict String Results
execute_job spark now job results = elim (run_job spark job) [
  | returns r ↦ (
    record job {
      status = completed;
      result_summary = some (summary_of r);
      rows_processed = rows_of r;
      completed_at = some now;
    },
    insert job.job_id r results,
  )
  | raises e ↦
      (record job { status = failed; error_message = some e; completed_at = some now }, results)
]

abbrev pub six : ℕ → List Action
six now = thread now ∷ thread now ∷ thread now ∷ thread now ∷ thread now ∷ thread now ∷ []

-- Without a cancellation, six steps of the thread are `_execute_job`: the job and the store are
-- what its text, read from top to bottom, says.
pub acts-execute_job :
    (spark : SparkJobs) (now : ℕ) (id job_type params : String) (results : Dict String Results)
    → let w = submit_job id job_type params results in
      ((acts spark (six now) w).job ≡ (execute_job spark now w.job results).0)
      × ((acts spark (six now) w).results ≡ (execute_job spark now w.job results).1)
unfolding acts act submit_job execute_job run_job
acts-execute_job spark now id job_type params results = ground arith

abbrev pub threads : List ℕ → List Action
threads [] = []
threads (now ∷ times) = thread now ∷ threads times

-- Where the thread has not yet set the status to `running`, or has passed its check of the status
-- after a Spark job that returned, and has not yet set the status to `completed`.
pub data IsLate (spark : SparkJobs) (job : SparkJob) : At → Type 0 where
  before_start : (r : Results) → run_job spark job ≡ returns r → IsLate spark job queued
  before_store : (r : Results) → IsLate spark job (storing r)
  before_status : (r : Results) → IsLate spark job (completing r)

-- On the way to `completed`, whatever the status was before.
abbrev IsCompleting : SparkJobs → At → SparkJob → Type 0
IsCompleting spark queued job = (r : Results) × (run_job spark job ≡ returns r)
IsCompleting spark working job =
    (r : Results) × (run_job spark job ≡ returns r) × (job.status ≡ running)
IsCompleting spark (ran run) job = (r : Results) × (run ≡ returns r) × (job.status ≡ running)
IsCompleting spark (storing r) job = Unit
IsCompleting spark (completing r) job = Unit
IsCompleting spark stamping job = job.status ≡ completed
IsCompleting spark (failing e) job = ⊥
IsCompleting spark finished job = job.status ≡ completed

advance-IsCompleting :
    (spark : SparkJobs) (now : ℕ) (at : At) (w : Runner)
    → w.at ≡ at
    → IsCompleting spark at w.job
    → IsCompleting spark (advance spark now at w).at (advance spark now at w).job
unfolding run_job
advance-IsCompleting spark now queued w e (r, runs) = (r, runs, refl)
advance-IsCompleting spark now working w e (r, runs, on) = (r, runs, on)
advance-IsCompleting spark now (ran (returns r)) w e (r', same, on) = rw on tt
advance-IsCompleting spark now (ran (raises text)) w e (r', same, on) =
    absurd (ground (arith, same))
advance-IsCompleting spark now (storing r) w e c = tt
advance-IsCompleting spark now (completing r) w e c = refl
advance-IsCompleting spark now stamping w e c = c
advance-IsCompleting spark now (failing text) w e c = absurd c
advance-IsCompleting spark now finished w e c = subst (λ a. IsCompleting spark a w.job) (sym e) c

threads-IsCompleting :
    (spark : SparkJobs) (times : List ℕ) (w : Runner)
    → IsCompleting spark w.at w.job
    → IsCompleting spark (acts spark (threads times) w).at (acts spark (threads times) w).job
unfolding acts act
threads-IsCompleting spark [] w c = c
threads-IsCompleting spark (now ∷ times) w c =
    threads-IsCompleting spark times (advance spark now w.at w)
      (advance-IsCompleting spark now w.at w refl c)

thread_steps-threads : (times : List ℕ) → thread_steps (threads times) ≡ length times
thread_steps-threads [] = refl
thread_steps-threads (now ∷ times) = ap suc (thread_steps-threads times)

-- A DELETE passes its check, and its cancellation comes where the thread has yet to set the status
-- to `running`, for a Spark job that will return, or between the check of the status and the
-- setting of `completed`. It is carried out; and when nobody else acts on the job, the thread ends
-- and the job is completed all the same.
pub cancel_overwritten :
    (spark : SparkJobs) (now : ℕ) (times : List ℕ) (w : Runner)
    → IsLate spark w.job w.at
    → w.deleting ≡ true
    → 6 ≤ length times
    → let gone = act spark (cancels now) w in
      (gone.job.status ≡ cancelled)
      × ((acts spark (threads times) gone).at ≡ finished)
      × ((acts spark (threads times) gone).job.status ≡ completed)
unfolding act run_job
cancel_overwritten spark now times w late deleting long =
    rw (deleting, act)
      (let gone : Runner = cancel_job now w in
        let over : (acts spark (threads times) gone).at ≡ finished =
          acts-finished spark (threads times) gone
            (omega (arith, long, thread_steps-threads times)) in
        let c : IsCompleting spark (acts spark (threads times) gone).at
            (acts spark (threads times) gone).job =
          threads-IsCompleting spark times gone (kept w.at late) in
        (
          refl,
          over,
          subst (λ a. IsCompleting spark a (acts spark (threads times) gone).job) over c,
        ))
  where
    kept : (at : At) → IsLate spark w.job at → IsCompleting spark at (cancel_job now w).job
    kept at (before_start r e) = (r, e)
    kept at (before_store r) = tt
    kept at (before_status r) = tt
