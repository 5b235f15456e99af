-- ===== src/MlTraining/Tests.antt =====
-- The training jobs at concrete inputs.
use g_io_t_edge_gateway.Prelude.{
  List, [], arith, false, inl, inr, nat_eq, refl, some, string_eq, ℕ, ◌++◌, ◌+◌, ◌-◌, ◌<◌, ◌∷◌, ◌≡◌,
  ◌≤◌, ◌⊎◌,
}
use g_io_t_edge_gateway.MlTraining.Trainer.{
  Action, Torch, Training, act, acts, cancel_job, cancelled, create_model, finished, fitting,
  is_over, loading, running, start_training, thread,
}
use g_io_t_edge_gateway.MlTraining.Progress.{is_completed, metrics_until, to_log, training_progress}
use g_io_t_edge_gateway.MlTraining.Stopping.{cancel_stops, cancelled_keeps_running, threads}

-- Losses are natural numbers here, smaller from epoch to epoch.
abbrev torch : Torch ℕ
torch = record {
  prepare = inr tt;
  epoch = λ n. inr (100 - n, 110 - n);
  export = inr tt;
  output_path = "/models/j1.onnx";
}

abbrev four_steps : List Action
four_steps = thread 1 ∷ thread 2 ∷ thread 3 ∷ thread 4 ∷ []

abbrev six_steps : List Action
six_steps = thread 1 ∷ thread 2 ∷ thread 3 ∷ thread 4 ∷ thread 5 ∷ thread 6 ∷ []

abbrev fitting_first : Training ℕ
fitting_first = acts ℕ torch four_steps (start_training ℕ "j1" "lstm" 3)

-- The thread has reported the first epoch, and logged one of its two metrics.
abbrev halfway : Training ℕ
halfway = acts ℕ torch six_steps (start_training ℕ "j1" "lstm" 3)

training_progress_example :
    (halfway.job.epochs_completed ≤ 3)
    × (halfway.experiment.metrics ++ to_log ℕ torch halfway.at
        ≡ metrics_until ℕ torch halfway.job.epochs_completed)
    × ((is_completed halfway.job.status ≡ false)
        ⊎ ((halfway.job.epochs_completed ≡ 3)
            × (to_log ℕ torch halfway.at ≡ [])
            × (halfway.job.model_path ≡ some "/models/j1.onnx")))
training_progress_example = training_progress ℕ torch "j1" "lstm" 3 six_steps

abbrev just_started : Training ℕ
just_started = start_training ℕ "j1" "lstm" 3

is_loading : just_started.at ≡ loading
unfolding start_training
is_loading = refl

start_lem :
    (is_over just_started.job.status ≡ false)
    × (create_model ℕ just_started.job.model_type ≡ inr tt)
    × (0 < just_started.job.total_epochs)
unfolding start_training
start_lem = (refl, refl, omega arith)

abbrev times : List ℕ
times = 5 ∷ 6 ∷ 7 ∷ 8 ∷ 9 ∷ []

cancelled_keeps_running_example :
    ((cancel_job ℕ 5 just_started).job.status ≡ cancelled)
    × ((acts ℕ torch (threads ℕ torch times) (cancel_job ℕ 5 just_started)).at ≡ finished)
    × ((acts ℕ torch (threads ℕ torch times) (cancel_job ℕ 5 just_started)).job.status ≡ running)
    × ((acts ℕ torch (threads ℕ torch times) (cancel_job ℕ 5 just_started)).job.epochs_completed
        ≡ just_started.job.epochs_completed)
cancelled_keeps_running_example =
    cancelled_keeps_running ℕ torch 5 times just_started (inl is_loading) start_lem.0 start_lem.1
      refl start_lem.2 (omega arith)

fitting_first_lem :
    (fitting_first.at ≡ fitting 0)
    × (0 + 1 < fitting_first.job.total_epochs)
    × (fitting_first.job.epochs_completed ≡ 0)
    × (is_over fitting_first.job.status ≡ false)
unfolding acts act start_training
fitting_first_lem = (refl, omega arith, refl, refl)

cancel_stops_example :
    ((acts ℕ torch four_steps (cancel_job ℕ 9 fitting_first)).job.epochs_completed ≤ 0 + 1)
    × (is_completed (acts ℕ torch four_steps (cancel_job ℕ 9 fitting_first)).job.status ≡ false)
cancel_stops_example =
    cancel_stops ℕ torch 0 9 four_steps fitting_first fitting_first_lem.0 fitting_first_lem.1
      fitting_first_lem.2 fitting_first_lem.3
