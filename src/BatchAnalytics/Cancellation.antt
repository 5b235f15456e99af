-- ===== src/BatchAnalytics/Cancellation.antt =====
-- job_runner.py: what every interleaving of a job's thread with its cancellations keeps.
use g_io_t_edge_gateway.Prelude.{
  Bool, Bool-cases, List, String, [], ap, arith, false, if◌then◌else◌, inl, inr, nat_eq, refl, some,
  string_eq, subst, suc, true, ℕ, ◌-◌, ◌||◌, ◌∷◌, ◌≡◌, ◌≤◌, ◌⊎◌,
}
use g_io_t_edge_gateway.Dict.{Dict, insert, lookup}
use g_io_t_edge_gateway.BatchAnalytics.JobRunner.{
  Action, At, JobStatus, Results, Runner, SparkJobs, act, acts, advance, can_cancel, cancel_job,
  cancelled, cancels, checks, completed, completing, failed, failing, finished, is_cancelled,
  queued, raises, ran, returns, rows_of, stamping, storing, submit_job, summary_of, thread, working,
}

-- Neither completed nor failed.
abbrev IsOpen : Runner → Type 0
IsOpen w = (can_cancel w.job.status || is_cancelled w.job.status) ≡ true

-- Cancelled, failed, or completed with its result in the store and its summary in the job.
abbrev pub IsEnded : Runner → Type 0
IsEnded w =
    (w.job.status ≡ cancelled)
    ⊎ (w.job.status ≡ failed)
    ⊎ ((r : Results) × (lookup w.job.job_id w.results ≡ some r)
        × (w.job.result_summary ≡ some (summary_of r))
        × (w.job.rows_processed ≡ rows_of r)
        × (w.job.status ≡ completed))

abbrev Consistent : At → Runner → Type 0
Consistent queued w = IsOpen w
Consistent working w = IsOpen w
Consistent (ran run) w = IsOpen w
Consistent (storing r) w = IsOpen w
Consistent (completing r) w = IsOpen w × (lookup w.job.job_id w.results ≡ some r)
Consistent stamping w = IsEnded w
Consistent (failing e) w = IsOpen w
Consistent finished w = IsEnded w

lookup-insert_self :
    (id : String) (r : Results) (m : Dict String Results) → lookup id (insert id r m) ≡ some r
unfolding lookup insert
lookup-insert_self id r [] = ground (arith, string_eq.beq_iff id id)
lookup-insert_self id r ((j, old) ∷ m) =
    ground (arith, lookup-insert_self id r m, string_eq.beq_iff j id)

cancelled_lem : (s : JobStatus) → is_cancelled s ≡ true → s ≡ cancelled
cancelled_lem s h = ground arith

advance-Consistent :
    (spark : SparkJobs) (now : ℕ) (at : At) (w : Runner)
    → w.at ≡ at
    → Consistent at w
    → Consistent (advance spark now at w).at (advance spark now at w)
advance-Consistent spark now queued w e c = refl
advance-Consistent spark now working w e c = c
advance-Consistent spark now (ran (returns r)) w e c =
    elim (Bool-cases (is_cancelled w.job.status)) [
      | inl gone ↦ rw gone (inl (cancelled_lem w.job.status gone))
      | inr goes_on ↦ rw goes_on c
    ]
advance-Consistent spark now (ran (raises text)) w e c =
    elim (Bool-cases (is_cancelled w.job.status)) [
      | inl gone ↦ rw gone (inl (cancelled_lem w.job.status gone))
      | inr goes_on ↦ rw goes_on c
    ]
advance-Consistent spark now (storing r) w e c = (c, lookup-insert_self w.job.job_id r w.results)
advance-Consistent spark now (completing r) w e c = inr (inr (r, c.1, refl, refl, refl))
advance-Consistent spark now stamping w e c = c
advance-Consistent spark now (failing text) w e c = inr (inl refl)
advance-Consistent spark now finished w e c = rw e c

cancel-Consistent :
    (now : ℕ) (at : At) (w : Runner) → Consistent at w → Consistent at (cancel_job now w)
cancel-Consistent now queued w c = refl
cancel-Consistent now working w c = refl
cancel-Consistent now (ran run) w c = refl
cancel-Consistent now (storing r) w c = refl
cancel-Consistent now (completing r) w c = (refl, c.1)
cancel-Consistent now stamping w c = inl refl
cancel-Consistent now (failing e) w c = refl
cancel-Consistent now finished w c = inl refl

act-Consistent :
    (spark : SparkJobs) (a : Action) (w : Runner)
    → Consistent w.at w
    → Consistent (act spark a w).at (act spark a w)
unfolding act
act-Consistent spark (thread now) w c = advance-Consistent spark now w.at w refl c
act-Consistent spark checks w c = checked w.at w c
  where
    checked :
        (at : At) (w : Runner)
        → Consistent at w
        → Consistent at (record w { deleting = can_cancel w.job.status })
    checked queued w c = c
    checked working w c = c
    checked (ran run) w c = c
    checked (storing r) w c = c
    checked (completing r) w c = c
    checked stamping w c = c
    checked (failing e) w c = c
    checked finished w c = c
act-Consistent spark (cancels now) w c = guarded w.deleting
  where
    guarded :
        (b : Bool)
        → Consistent (if b then cancel_job now w else w).at (if b then cancel_job now w else w)
    guarded true = cancel-Consistent now w.at w c
    guarded false = c

acts-Consistent :
    (spark : SparkJobs) (as' : List Action) (w : Runner)
    → Consistent w.at w
    → Consistent (acts spark as' w).at (acts spark as' w)
unfolding acts
acts-Consistent spark [] w c = c
acts-Consistent spark (a ∷ as') w c =
    acts-Consistent spark as' (act spark a w) (act-Consistent spark a w c)

-- How many steps the thread has left.
abbrev left : At → ℕ
left queued = 6
left working = 5
left (ran run) = 4
left (storing r) = 3
left (completing r) = 2
left stamping = 1
left (failing e) = 1
left finished = 0

-- The steps of the thread in a schedule.
abbrev pub thread_steps : List Action → ℕ
thread_steps [] = 0
thread_steps (thread now ∷ as') = suc (thread_steps as')
thread_steps (checks ∷ as') = thread_steps as'
thread_steps (cancels now ∷ as') = thread_steps as'

advance-left :
    (spark : SparkJobs) (now : ℕ) (at : At) (w : Runner)
    → w.at ≡ at
    → left (advance spark now at w).at ≤ left at - 1
advance-left spark now queued w e = omega arith
advance-left spark now working w e = omega arith
advance-left spark now (ran (returns r)) w e = ground arith
advance-left spark now (ran (raises text)) w e = ground arith
advance-left spark now (storing r) w e = omega arith
advance-left spark now (completing r) w e = omega arith
advance-left spark now stamping w e = omega arith
advance-left spark now (failing text) w e = omega arith
advance-left spark now finished w e = rw e (omega arith)

cancels-at : (spark : SparkJobs) (now : ℕ) (w : Runner) → (act spark (cancels now) w).at ≡ w.at
unfolding act
cancels-at spark now w = ground arith

acts-left :
    (spark : SparkJobs) (as' : List Action) (w : Runner)
    → left (acts spark as' w).at ≤ left w.at - thread_steps as'
unfolding acts act
acts-left spark [] w = omega arith
acts-left spark (thread now ∷ as') w =
    omega
      (arith, acts-left spark as' (advance spark now w.at w), advance-left spark now w.at w refl)
acts-left spark (checks ∷ as') w =
    acts-left spark as' (record w { deleting = can_cancel w.job.status })
acts-left spark (cancels now ∷ as') w =
    omega (arith, acts-left spark as' (act spark (cancels now) w), ap left (cancels-at spark now w))

left-finished : (at : At) → left at ≤ 0 → at ≡ finished
left-finished queued h = absurd (omega (arith, h))
left-finished working h = absurd (omega (arith, h))
left-finished (ran run) h = absurd (omega (arith, h))
left-finished (storing r) h = absurd (omega (arith, h))
left-finished (completing r) h = absurd (omega (arith, h))
left-finished stamping h = absurd (omega (arith, h))
left-finished (failing e) h = absurd (omega (arith, h))
left-finished finished h = refl

left-most : (at : At) → left at ≤ 6
left-most queued = omega arith
left-most working = omega arith
left-most (ran run) = omega arith
left-most (storing r) = omega arith
left-most (completing r) = omega arith
left-most stamping = omega arith
left-most (failing e) = omega arith
left-most finished = omega arith

-- Six steps end the thread, wherever it is.
pub acts-finished :
    (spark : SparkJobs) (as' : List Action) (w : Runner)
    → 6 ≤ thread_steps as'
    → (acts spark as' w).at ≡ finished
acts-finished spark as' w enough =
    left-finished (acts spark as' w).at
      (omega (arith, enough, acts-left spark as' w, left-most w.at))

-- However a submitted job and the clients that cancel it interleave: after six steps of its thread
-- the thread has ended, and the job is cancelled, failed, or completed with its result stored and
-- its summary shown.
pub job_ends :
    (spark : SparkJobs) (id job_type params : String) (results : Dict String Results)
    (as' : List Action)
    → 6 ≤ thread_steps as'
    → let w = acts spark as' (submit_job id job_type params results) in
      (w.at ≡ finished) × IsEnded w
unfolding submit_job
job_ends spark id job_type params results as' enough =
    let w : Runner = submit_job id job_type params results in
    let over : (acts spark as' w).at ≡ finished = acts-finished spark as' w enough in
    (over, subst (λ at. Consistent at (acts spark as' w)) over (acts-Consistent spark as' w refl))
