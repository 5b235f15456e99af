-- ===== src/MlTraining/Trainer.antt =====
-- services/trainer.py and services/experiment_tracker.py: one training job, its thread and the
-- clients that cancel it, interleaved. A cancellation is one access of the job. What torch and the
-- export do is a parameter; the configuration of an experiment and the times of metrics are left
-- out.
use Prim.Native.String.{◌++◌ as str_append}
use g_io_t_edge_gateway.Prelude.{
  Bool, List, Option, String, [], false, if◌then◌else◌, inl, inr, ltb, nat_eq, none, some,
  string_eq, true, ℕ, ◌++◌, ◌+◌, ◌==◌, ◌||◌, ◌∷◌, ◌⊎◌,
}

pub data TrainingStatus : Type 0 where
  pending running completed failed cancelled : TrainingStatus

-- `job.status in ("completed", "failed", "cancelled")`.
abbrev pub is_over : TrainingStatus → Bool
is_over pending = false
is_over running = false
is_over completed = true
is_over failed = true
is_over cancelled = true

-- A step of the thread, or a call of `cancel_job`, at a time.
pub data Action : Type 0 where
  thread cancels : ℕ → Action

module _ (Loss : Type 0) where
  pub record TrainingJob : Type 0 where
    pub job_id : String
    pub model_type : String
    pub status : TrainingStatus
    pub epochs_completed : ℕ
    pub total_epochs : ℕ
    pub train_loss : Option Loss
    pub val_loss : Option Loss
    pub model_path : Option String
    pub completed_at : Option ℕ
    pub error_message : Option String

  pub record Metric : Type 0 where
    pub epoch : ℕ
    pub metric_name : String
    pub value : Loss

  pub record Experiment : Type 0 where
    pub status : TrainingStatus
    pub metrics : List Metric

  -- What torch does for the job: `inl` is the text of an exception.
  pub record Torch : Type 0 where
    -- The model, the optimizer and the tensors.
    pub prepare : String ⊎ Unit {0}
    -- The training and the validation loss of an epoch, counted from 0.
    pub epoch : ℕ → String ⊎ (Loss × Loss)
    pub export : String ⊎ Unit {0}
    -- `os.path.join(model_output_dir, f"{job_id}.onnx")`.
    pub output_path : String

  -- Where the thread is in `_run` and `_train`. `next_epoch n` is before the n-th turn of the loop.
  pub data At : Type 0 where
    loading starting preparing exporting completing finished : At
    next_epoch fitting : ℕ → At
    -- An epoch has been reported; its metrics, or the second of them, are yet to be logged.
    reported : ℕ → Loss → Loss → At
    logged_train : ℕ → Loss → At
    failing : String → At

  -- The job, its experiment, whether it is in `_cancelled`, and its thread.
  pub record Training : Type 0 where
    pub job : TrainingJob
    pub experiment : Experiment
    pub is_cancelled : Bool
    pub at : At

  abbrev pub update_status : TrainingStatus → Experiment → Experiment
  update_status status e = record e { status = status }

  abbrev pub log_metric : ℕ → String → Loss → Experiment → Experiment
  log_metric epoch name value e = record e {
    metrics = e.metrics ++ record { epoch = epoch; metric_name = name; value = value } ∷ [];
  }

  abbrev pub set_status : TrainingStatus → Training → Training
  set_status status w = record w {
    job = record w.job { status = status };
    experiment = update_status status w.experiment;
  }

  -- `_create_model` raises for a type that it does not know; its text is shortened.
  abbrev pub create_model : String → String ⊎ Unit {0}
  create_model model_type =
      if model_type == "autoencoder" || model_type == "lstm"
      then inr tt
      else inl (str_append "Unknown model type " model_type)

  abbrev pub goes_to : At → String ⊎ Unit {0} → Training → Training
  goes_to at (inl error) w = record w { at = failing error }
  goes_to at (inr u) w = record w { at = at }

  abbrev pub prepared : Torch → String ⊎ Unit {0} → Training → Training
  prepared torch (inl error) w = record w { at = failing error }
  prepared torch (inr u) w = goes_to (next_epoch 0) torch.prepare w

  -- The end of an epoch: the progress of the job, before its metrics.
  abbrev pub finish_epoch : ℕ → String ⊎ (Loss × Loss) → Training → Training
  finish_epoch n (inl error) w = record w { at = failing error }
  finish_epoch n (inr (train, val)) w = record w {
    job = record w.job { epochs_completed = n + 1; train_loss = some train; val_loss = some val };
    at = reported n train val;
  }

  -- The next step of the thread. Data that cannot be loaded is made up, so loading does not fail.
  abbrev pub advance : Torch → ℕ → At → Training → Training
  advance torch now loading w = record w { at = starting }
  advance torch now starting w = record (set_status running w) { at = preparing }
  advance torch now preparing w = prepared torch (create_model w.job.model_type) w
  advance torch now (next_epoch n) w =
      if ltb n w.job.total_epochs
      then if w.is_cancelled then record w { at = finished } else record w { at = fitting n }
      else record w { at = exporting }
  advance torch now (fitting n) w = finish_epoch n (torch.epoch n) w
  advance torch now (reported n train val) w = record w {
    experiment = log_metric (n + 1) "train_loss" train w.experiment;
    at = logged_train n val;
  }
  advance torch now (logged_train n val) w = record w {
    experiment = log_metric (n + 1) "val_loss" val w.experiment;
    at = next_epoch (n + 1);
  }
  advance torch now exporting w = goes_to completing torch.export w
  advance torch now completing w = set_status completed (record w {
    job = record w.job { model_path = some torch.output_path; completed_at = some now };
    at = finished;
  })
  advance torch now (failing error) w = set_status failed (record w {
    job = record w.job { error_message = some error; completed_at = some now };
    at = finished;
  })
  advance torch now finished w = w

  unfoldable pub cancel_job : ℕ → Training → Training
  cancel_job now w =
      if is_over w.job.status
      then w
      else set_status cancelled
          (record w { job = record w.job { completed_at = some now }; is_cancelled = true })

  unfoldable pub act : Torch → Action → Training → Training
  act torch (thread now) w = advance torch now w.at w
  act torch (cancels now) w = cancel_job now w

  unfoldable pub acts : Torch → List Action → Training → Training
  acts torch [] w = w
  acts torch (a ∷ as') w = acts torch as' (act torch a w)

  unfoldable pub start_training : String → String → ℕ → Training
  start_training id model_type epochs = record {
    job = record {
      job_id = id;
      model_type = model_type;
      status = pending;
      epochs_completed = 0;
      total_epochs = epochs;
      train_loss = none;
      val_loss = none;
      model_path = none;
      completed_at = none;
      error_message = none;
    };
    experiment = record { status = pending; metrics = [] };
    is_cancelled = false;
    at = loading;
  }
