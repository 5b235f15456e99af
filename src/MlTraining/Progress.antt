-- ===== src/MlTraining/Progress.antt =====
-- trainer.py: the progress of a job under every interleaving.
use mathlib.Core.List.{append_assoc, append-nil}
use g_io_t_edge_gateway.Prelude.{
  Bool, Bool-cases, List, String, [], ap, arith, false, if◌then◌else◌, inl, inr, ltb, ltb→lt,
  nat_eq, refl, some, string_eq, subst, suc, sym, true, zero, ℕ, ◌++◌, ◌+◌, ◌<◌, ◌∙◌, ◌∷◌, ◌≡◌, ◌≤◌,
  ◌⊎◌,
}
use g_io_t_edge_gateway.MlTraining.Trainer.{
  Action, At, Metric, Torch, Training, TrainingJob, TrainingStatus, act, acts, advance, cancel_job,
  cancelled, cancels, completed, completing, create_model, exporting, failed, failing, finish_epoch,
  finished, fitting, goes_to, is_over, loading, logged_train, next_epoch, pending, prepared,
  preparing, reported, running, set_status, start_training, starting, thread,
}

abbrev pub is_completed : TrainingStatus → Bool
is_completed pending = false
is_completed running = false
is_completed completed = true
is_completed failed = false
is_completed cancelled = false

module _ (Loss : Type 0) (torch : Torch Loss) where
  abbrev IsOpen : TrainingJob Loss → Type 0
  IsOpen j = is_completed j.status ≡ false

  -- What holds of the job where its thread is.
  abbrev Where : At Loss → TrainingJob Loss → Type 0
  Where loading j = (j.epochs_completed ≡ 0) × IsOpen j
  Where starting j = (j.epochs_completed ≡ 0) × IsOpen j
  Where preparing j = (j.epochs_completed ≡ 0) × IsOpen j
  Where (next_epoch n) j = (j.epochs_completed ≡ n) × (n ≤ j.total_epochs) × IsOpen j
  Where (fitting n) j = (j.epochs_completed ≡ n) × (n < j.total_epochs) × IsOpen j
  Where (reported n train val) j = (j.epochs_completed ≡ n + 1) × (n < j.total_epochs) × IsOpen j
  Where (logged_train n val) j = (j.epochs_completed ≡ n + 1) × (n < j.total_epochs) × IsOpen j
  Where exporting j = (j.epochs_completed ≡ j.total_epochs) × IsOpen j
  Where completing j = (j.epochs_completed ≡ j.total_epochs) × IsOpen j
  Where (failing e) j = (j.epochs_completed ≤ j.total_epochs) × IsOpen j
  Where finished j =
      (j.epochs_completed ≤ j.total_epochs)
      × (IsOpen j
          ⊎ ((j.epochs_completed ≡ j.total_epochs) × (j.model_path ≡ some torch.output_path)))

  abbrev pub metric : ℕ → String → Loss → Metric Loss
  metric epoch name value = record { epoch = epoch; metric_name = name; value = value }

  -- The two metrics of an epoch, counted from 0: its losses, with the number of the epoch from 1.
  abbrev pub metrics_of : ℕ → String ⊎ (Loss × Loss) → List (Metric Loss)
  metrics_of n (inl error) = []
  metrics_of n (inr (train, val)) =
      metric (n + 1) "train_loss" train ∷ metric (n + 1) "val_loss" val ∷ []

  -- The metrics of the first epochs, one epoch after the other.
  abbrev pub metrics_until : ℕ → List (Metric Loss)
  metrics_until zero = []
  metrics_until (suc n) = metrics_until n ++ metrics_of n (torch.epoch n)

  -- What the thread, where it is, has yet to log of the epoch that it has reported.
  abbrev pub to_log : At Loss → List (Metric Loss)
  to_log loading = []
  to_log starting = []
  to_log preparing = []
  to_log exporting = []
  to_log completing = []
  to_log finished = []
  to_log (next_epoch n) = []
  to_log (fitting n) = []
  to_log (reported n train val) = metrics_of n (inr (train, val))
  to_log (logged_train n val) = metric (n + 1) "val_loss" val ∷ []
  to_log (failing e) = []

  pub record IsSound (epochs : ℕ) (at : At Loss) (w : Training Loss) : Type 0 where
    pub total : w.job.total_epochs ≡ epochs
    pub logged : w.experiment.metrics ++ to_log at ≡ metrics_until w.job.epochs_completed
    pub place : Where at w.job

  goes_to-IsSound :
      (epochs : ℕ) (at : At Loss) (o : String ⊎ Unit {0}) (w : Training Loss)
      → w.job.total_epochs ≡ epochs
      → w.experiment.metrics ++ [] ≡ metrics_until w.job.epochs_completed
      → to_log at ≡ []
      → Where (failing "") w.job
      → Where at w.job
      → IsSound epochs (goes_to Loss at o w).at (goes_to Loss at o w)
  goes_to-IsSound epochs at (inl error) w total logged none_left fallen p = record {
    total = total;
    logged = logged;
    place = fallen;
  }
  goes_to-IsSound epochs at (inr u) w total logged none_left fallen p = record {
    total = total;
    logged = ap (λ ms. w.experiment.metrics ++ ms) none_left ∙ logged;
    place = p;
  }

  prepared-IsSound :
      (epochs : ℕ) (o : String ⊎ Unit {0}) (w : Training Loss)
      → IsSound epochs preparing w
      → IsSound epochs (prepared Loss torch o w).at (prepared Loss torch o w)
  prepared-IsSound epochs (inl error) w s = record {
    total = s.total;
    logged = s.logged;
    place = (omega (arith, s.place.0), s.place.1);
  }
  prepared-IsSound epochs (inr u) w s =
      goes_to-IsSound epochs (next_epoch 0) torch.prepare w s.total s.logged refl
        (omega (arith, s.place.0), s.place.1) (s.place.0, omega arith, s.place.1)

  metrics_until-add :
      (n : ℕ) → metrics_until (n + 1) ≡ metrics_until n ++ metrics_of n (torch.epoch n)
  metrics_until-add n = let e : n + 1 ≡ suc n = omega arith in ap metrics_until e

  finish_epoch-IsSound :
      (epochs n : ℕ) (o : String ⊎ (Loss × Loss)) (w : Training Loss)
      → torch.epoch n ≡ o
      → IsSound epochs (fitting n) w
      → IsSound epochs (finish_epoch Loss n o w).at (finish_epoch Loss n o w)
  finish_epoch-IsSound epochs n (inl error) w e s = record {
    total = s.total;
    logged = s.logged;
    place = (omega (arith, s.place.0, s.place.1), s.place.2);
  }
  finish_epoch-IsSound epochs n (inr (train, val)) w e s = record {
    total = s.total;
    logged =
        let before : w.experiment.metrics ≡ metrics_until n =
          sym (append-nil w.experiment.metrics) ∙ s.logged ∙ ap metrics_until s.place.0 in
        let after : metrics_until (n + 1) ≡ metrics_until n ++ metrics_of n (inr (train, val)) =
          metrics_until-add n ∙ ap (λ o. metrics_until n ++ metrics_of n o) e in
        ap (λ ms. ms ++ metrics_of n (inr (train, val))) before ∙ sym after;
    place = (refl, s.place.1, s.place.2);
  }

  advance-IsSound :
      (epochs now : ℕ) (at : At Loss) (w : Training Loss)
      → w.at ≡ at
      → IsSound epochs at w
      → IsSound epochs (advance Loss torch now at w).at (advance Loss torch now at w)
  advance-IsSound epochs now loading w e s = record {
    total = s.total;
    logged = s.logged;
    place = s.place;
  }
  advance-IsSound epochs now starting w e s = record {
    total = s.total;
    logged = s.logged;
    place = (s.place.0, refl);
  }
  advance-IsSound epochs now preparing w e s =
      prepared-IsSound epochs (create_model Loss w.job.model_type) w s
  advance-IsSound epochs now (next_epoch n) w e s = elim (Bool-cases (ltb n w.job.total_epochs)) [
    | inr over ↦ rw over (record {
      total = s.total;
      logged = s.logged;
      place = (ground (arith, s.place.0, s.place.1, over), s.place.2);
    })
    | inl more ↦ rw more (checked w.is_cancelled (ltb→lt n w.job.total_epochs more))
  ]
    where
      checked :
          (b : Bool)
          → n < w.job.total_epochs
          → IsSound epochs
              (if b then record w { at = finished } else record w { at = fitting n }).at
              (if b then record w { at = finished } else record w { at = fitting n })
      checked true h = record {
        total = s.total;
        logged = s.logged;
        place = (omega (arith, s.place.0, s.place.1), inl s.place.2);
      }
      checked false h = record {
        total = s.total;
        logged = s.logged;
        place = (s.place.0, h, s.place.2);
      }
  advance-IsSound epochs now (fitting n) w e s =
      finish_epoch-IsSound epochs n (torch.epoch n) w refl s
  advance-IsSound epochs now (reported n train val) w e s = record {
    total = s.total;
    logged =
        append_assoc w.experiment.metrics (metric (n + 1) "train_loss" train ∷ [])
          (metric (n + 1) "val_loss" val ∷ [])
        ∙ s.logged;
    place = s.place;
  }
  advance-IsSound epochs now (logged_train n val) w e s = record {
    total = s.total;
    logged = append-nil (w.experiment.metrics ++ metric (n + 1) "val_loss" val ∷ []) ∙ s.logged;
    place = (s.place.0, omega (arith, s.place.1), s.place.2);
  }
  advance-IsSound epochs now exporting w e s =
      goes_to-IsSound epochs completing torch.export w s.total s.logged refl
        (omega (arith, s.place.0), s.place.1) s.place
  advance-IsSound epochs now completing w e s = record {
    total = s.total;
    logged = s.logged;
    place = (omega (arith, s.place.0), inr (s.place.0, refl));
  }
  advance-IsSound epochs now (failing text) w e s = record {
    total = s.total;
    logged = s.logged;
    place = (s.place.0, inl refl);
  }
  advance-IsSound epochs now finished w e s = subst (λ a. IsSound epochs a w) (sym e) s

  cancelled-Where :
      (now : ℕ) (at : At Loss) (j : TrainingJob Loss)
      → Where at j
      → Where at (record j { completed_at = some now; status = cancelled })
  cancelled-Where now loading j p = (p.0, refl)
  cancelled-Where now starting j p = (p.0, refl)
  cancelled-Where now preparing j p = (p.0, refl)
  cancelled-Where now (next_epoch n) j p = (p.0, p.1, refl)
  cancelled-Where now (fitting n) j p = (p.0, p.1, refl)
  cancelled-Where now (reported n train val) j p = (p.0, p.1, refl)
  cancelled-Where now (logged_train n val) j p = (p.0, p.1, refl)
  cancelled-Where now exporting j p = (p.0, refl)
  cancelled-Where now completing j p = (p.0, refl)
  cancelled-Where now (failing e) j p = (p.0, refl)
  cancelled-Where now finished j p = (p.0, inl refl)

  cancel_job-IsSound :
      (epochs now : ℕ) (w : Training Loss)
      → IsSound epochs w.at w
      → IsSound epochs (cancel_job Loss now w).at (cancel_job Loss now w)
  unfolding cancel_job
  cancel_job-IsSound epochs now w s = guarded (is_over w.job.status)
    where
      w' : Training Loss
      w' =
          set_status Loss cancelled
            (record w { job = record w.job { completed_at = some now }; is_cancelled = true })

      guarded : (b : Bool) → IsSound epochs (if b then w else w').at (if b then w else w')
      guarded true = s
      guarded false = record {
        total = s.total;
        logged = s.logged;
        place = cancelled-Where now w.at w.job s.place;
      }

  acts-IsSound :
      (epochs : ℕ) (as' : List Action) (w : Training Loss)
      → IsSound epochs w.at w
      → IsSound epochs (acts Loss torch as' w).at (acts Loss torch as' w)
  unfolding acts act
  acts-IsSound epochs [] w s = s
  acts-IsSound epochs (thread now ∷ as') w s =
      acts-IsSound epochs as' (advance Loss torch now w.at w)
        (advance-IsSound epochs now w.at w refl s)
  acts-IsSound epochs (cancels now ∷ as') w s =
      acts-IsSound epochs as' (cancel_job Loss now w) (cancel_job-IsSound epochs now w s)

  -- What all places have in common.
  abbrev Ending : At Loss → TrainingJob Loss → Type 0
  Ending at j =
      (j.epochs_completed ≤ j.total_epochs)
      × (IsOpen j
          ⊎ ((j.epochs_completed ≡ j.total_epochs)
              × (to_log at ≡ [])
              × (j.model_path ≡ some torch.output_path)))

  final : (at : At Loss) (j : TrainingJob Loss) → Where at j → Ending at j
  final loading j p = (omega (arith, p.0), inl p.1)
  final starting j p = (omega (arith, p.0), inl p.1)
  final preparing j p = (omega (arith, p.0), inl p.1)
  final (next_epoch n) j p = (omega (arith, p.0, p.1), inl p.2)
  final (fitting n) j p = (omega (arith, p.0, p.1), inl p.2)
  final (reported n train val) j p = (omega (arith, p.0, p.1), inl p.2)
  final (logged_train n val) j p = (omega (arith, p.0, p.1), inl p.2)
  final exporting j p = (omega (arith, p.0), inl p.1)
  final completing j p = (omega (arith, p.0), inl p.1)
  final (failing e) j p = (p.0, inl p.1)
  final finished j (bound, inl open') = (bound, inl open')
  final finished j (bound, inr (all, path)) = (bound, inr (all, refl, path))

  -- However the thread of a job and cancellations interleave: the job never reports more epochs
  -- than it has. Its metrics, with those that the thread has yet to log of the epoch it has just
  -- reported, are the losses of the reported epochs: for each epoch in turn the training loss and
  -- then the validation loss, under the number of the epoch. And unless all epochs are reported,
  -- all metrics are logged and the job has the path of the exported model, it is not completed.
  pub training_progress :
      (id model_type : String) (epochs : ℕ) (as' : List Action)
      → let w = acts Loss torch as' (start_training Loss id model_type epochs) in
        (w.job.epochs_completed ≤ epochs)
        × (w.experiment.metrics ++ to_log w.at ≡ metrics_until w.job.epochs_completed)
        × ((is_completed w.job.status ≡ false)
            ⊎ ((w.job.epochs_completed ≡ epochs)
                × (to_log w.at ≡ [])
                × (w.job.model_path ≡ some torch.output_path)))
  unfolding start_training
  training_progress id model_type epochs as' =
      let w : Training Loss = acts Loss torch as' (start_training Loss id model_type epochs) in
      let s : IsSound epochs w.at w =
        acts-IsSound epochs as' (start_training Loss id model_type epochs)
          (record { total = refl; logged = refl; place = (refl, refl) }) in
      let (bound, end) = final w.at w.job s.place in
      (
        omega (arith, bound, s.total),
        s.logged,
        subst
            (λ n.
              (is_completed w.job.status ≡ false)
              ⊎ ((w.job.epochs_completed ≡ n)
                  × (to_log w.at ≡ [])
                  × (w.job.model_path ≡ some torch.output_path)))
            s.total end,
      )
