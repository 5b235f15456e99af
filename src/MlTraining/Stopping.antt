-- ===== src/MlTraining/Stopping.antt =====
-- trainer.py: a cancellation while the epochs run, and one before the thread starts.
use g_io_t_edge_gateway.Prelude.{
  Bool, List, String, [], ap, arith, false, if◌then◌else◌, inl, inr, length, ltb, lt→ltb, nat_eq,
  refl, some, string_eq, subst, sym, true, ℕ, ◌+◌, ◌<◌, ◌∙◌, ◌∷◌, ◌≡◌, ◌≤◌, ◌⊎◌,
}
use g_io_t_edge_gateway.MlTraining.Trainer.{
  Action, At, Torch, Training, act, acts, advance, cancel_job, cancelled, cancels, completing,
  create_model, exporting, failing, finish_epoch, finished, fitting, is_over, loading, logged_train,
  next_epoch, preparing, reported, running, set_status, starting, thread,
}
use g_io_t_edge_gateway.MlTraining.Progress.{is_completed}

module _ (Loss : Type 0) (torch : Torch Loss) where
  -- Where the thread of a job can be that was cancelled in epoch `n`, counted from 0.
  abbrev Where : ℕ → At Loss → Training Loss → Type 0
  Where n loading w = ⊥
  Where n starting w = ⊥
  Where n preparing w = ⊥
  Where n (next_epoch k) w = (k ≤ n + 1) × (k < w.job.total_epochs)
  Where n (fitting k) w = (k ≤ n) × (k + 1 < w.job.total_epochs)
  Where n (reported k train val) w = (k ≤ n) × (k + 1 < w.job.total_epochs)
  Where n (logged_train k val) w = (k ≤ n) × (k + 1 < w.job.total_epochs)
  Where n exporting w = ⊥
  Where n completing w = ⊥
  Where n (failing e) w = Unit
  Where n finished w = Unit

  pub record IsStopping (n : ℕ) (at : At Loss) (w : Training Loss) : Type 0 where
    pub marked : w.is_cancelled ≡ true
    pub open' : is_completed w.job.status ≡ false
    pub few : w.job.epochs_completed ≤ n + 1
    pub place : Where n at w

  finish_epoch-IsStopping :
      (n k : ℕ) (o : String ⊎ (Loss × Loss)) (w : Training Loss)
      → IsStopping n (fitting k) w
      → IsStopping n (finish_epoch Loss k o w).at (finish_epoch Loss k o w)
  finish_epoch-IsStopping n k (inl error) w s = record {
    marked = s.marked;
    open' = s.open';
    few = s.few;
    place = tt;
  }
  finish_epoch-IsStopping n k (inr (train, val)) w s = record {
    marked = s.marked;
    open' = s.open';
    few = omega (arith, s.place.0);
    place = s.place;
  }

  advance-IsStopping :
      (n now : ℕ) (at : At Loss) (w : Training Loss)
      → w.at ≡ at
      → IsStopping n at w
      → IsStopping n (advance Loss torch now at w).at (advance Loss torch now at w)
  advance-IsStopping n now loading w e s = absurd s.place
  advance-IsStopping n now starting w e s = absurd s.place
  advance-IsStopping n now preparing w e s = absurd s.place
  advance-IsStopping n now (next_epoch k) w e s =
      checked (ltb k w.job.total_epochs) w.is_cancelled (lt→ltb k w.job.total_epochs s.place.1)
        s.marked
    where
      turned : Bool → Bool → Training Loss
      turned more stop =
          if more
          then (if stop then record w { at = finished } else record w { at = fitting k })
          else record w { at = exporting }

      checked :
          (more stop : Bool)
          → more ≡ true
          → stop ≡ true
          → IsStopping n (turned more stop).at (turned more stop)
      checked true true h h' = record {
        marked = s.marked;
        open' = s.open';
        few = s.few;
        place = tt;
      }
      checked true false h h' = cc
      checked false stop h h' = cc
  advance-IsStopping n now (fitting k) w e s = finish_epoch-IsStopping n k (torch.epoch k) w s
  advance-IsStopping n now (reported k train val) w e s = record {
    marked = s.marked;
    open' = s.open';
    few = s.few;
    place = s.place;
  }
  advance-IsStopping n now (logged_train k val) w e s = record {
    marked = s.marked;
    open' = s.open';
    few = s.few;
    place = (omega (arith, s.place.0), s.place.1);
  }
  advance-IsStopping n now exporting w e s = absurd s.place
  advance-IsStopping n now completing w e s = absurd s.place
  advance-IsStopping n now (failing text) w e s = record {
    marked = s.marked;
    open' = refl;
    few = s.few;
    place = tt;
  }
  advance-IsStopping n now finished w e s = subst (λ a. IsStopping n a w) (sym e) s

  cancelled-Where :
      (n now : ℕ) (at : At Loss) (w : Training Loss)
      → Where n at w
      → Where n at (
          set_status Loss cancelled
            (record w { job = record w.job { completed_at = some now }; is_cancelled = true }))
  cancelled-Where n now loading w p = absurd p
  cancelled-Where n now starting w p = absurd p
  cancelled-Where n now preparing w p = absurd p
  cancelled-Where n now (next_epoch k) w p = p
  cancelled-Where n now (fitting k) w p = p
  cancelled-Where n now (reported k train val) w p = p
  cancelled-Where n now (logged_train k val) w p = p
  cancelled-Where n now exporting w p = absurd p
  cancelled-Where n now completing w p = absurd p
  cancelled-Where n now (failing e) w p = p
  cancelled-Where n now finished w p = p

  cancel_job-IsStopping :
      (n now : ℕ) (w : Training Loss)
      → IsStopping n w.at w
      → IsStopping n (cancel_job Loss now w).at (cancel_job Loss now w)
  unfolding cancel_job
  cancel_job-IsStopping n now w s = guarded (is_over w.job.status)
    where
      w' : Training Loss
      w' =
          set_status Loss cancelled
            (record w { job = record w.job { completed_at = some now }; is_cancelled = true })

      guarded : (b : Bool) → IsStopping n (if b then w else w').at (if b then w else w')
      guarded true = s
      guarded false = record {
        marked = refl;
        open' = refl;
        few = s.few;
        place = cancelled-Where n now w.at w s.place;
      }

  acts-IsStopping :
      (n : ℕ) (as' : List Action) (w : Training Loss)
      → IsStopping n w.at w
      → IsStopping n (acts Loss torch as' w).at (acts Loss torch as' w)
  unfolding acts act
  acts-IsStopping n [] w s = s
  acts-IsStopping n (thread now ∷ as') w s =
      acts-IsStopping n as' (advance Loss torch now w.at w) (advance-IsStopping n now w.at w refl s)
  acts-IsStopping n (cancels now ∷ as') w s =
      acts-IsStopping n as' (cancel_job Loss now w) (cancel_job-IsStopping n now w s)

  -- A job that is cancelled during an epoch other than its last: whatever happens after it, the
  -- job finishes that epoch at most, and it is never completed.
  pub cancel_stops :
      (n now : ℕ) (as' : List Action) (w : Training Loss)
      → w.at ≡ fitting n
      → n + 1 < w.job.total_epochs
      → w.job.epochs_completed ≡ n
      → is_over w.job.status ≡ false
      → ((acts Loss torch as' (cancel_job Loss now w)).job.epochs_completed ≤ n + 1)
        × (is_completed (acts Loss torch as' (cancel_job Loss now w)).job.status ≡ false)
  unfolding cancel_job
  cancel_stops n now as' w at_epoch more done' goes_on =
      let w' : Training Loss =
        set_status Loss cancelled
          (record w { job = record w.job { completed_at = some now }; is_cancelled = true }) in
      let first : IsStopping n w'.at w' =
        subst (λ a. IsStopping n a w') (sym at_epoch)
          (record {
            marked = refl;
            open' = refl;
            few = omega (arith, done');
            place = (omega arith, more);
          }) in
      let s : IsStopping n (acts Loss torch as' w').at (acts Loss torch as' w') =
        acts-IsStopping n as' w' first in
      rw (goes_on, cancel_job) (s.few, s.open')

  abbrev pub threads : List ℕ → List Action
  threads [] = []
  threads (now ∷ times) = thread now ∷ threads times

  finished-threads :
      (times : List ℕ) (w : Training Loss) → w.at ≡ finished → acts Loss torch (threads times) w ≡ w
  unfolding acts act
  finished-threads [] w over = refl
  finished-threads (now ∷ times) w over =
      let same : advance Loss torch now w.at w ≡ w = rw (over, advance) refl in
      ap (acts Loss torch (threads times)) same ∙ finished-threads times w over

  -- What the thread makes of a job that is in `_cancelled` when it is about to start.
  from_start :
      (a b c : ℕ) (times : List ℕ) (w : Training Loss)
      → w.at ≡ starting
      → w.is_cancelled ≡ true
      → create_model Loss w.job.model_type ≡ inr tt
      → torch.prepare ≡ inr tt
      → 0 < w.job.total_epochs
      → acts Loss torch (threads (a ∷ b ∷ c ∷ times)) w
        ≡ record (set_status Loss running w) { at = finished }
  unfolding acts act
  from_start a b c times w e marked known ready some_epochs =
      let end : Training Loss = record (set_status Loss running w) { at = finished } in
      let three : acts Loss torch (thread a ∷ thread b ∷ thread c ∷ []) w ≡ end =
        ground (arith, e, marked, known, ready, some_epochs) in
      ap (acts Loss torch (threads times)) three ∙ finished-threads times end refl

  -- A job that is cancelled before its thread sets it to `running`, whose model type is known, for
  -- which torch can prepare model and data, and which has epochs to run. The cancellation is
  -- carried out; but when nobody else acts on the job, the thread takes the status back to running
  -- and then stops, so the job stays `running` with no thread and no epoch done.
  pub cancelled_keeps_running :
      (now : ℕ) (times : List ℕ) (w : Training Loss)
      → (w.at ≡ loading) ⊎ (w.at ≡ starting)
      → is_over w.job.status ≡ false
      → create_model Loss w.job.model_type ≡ inr tt
      → torch.prepare ≡ inr tt
      → 0 < w.job.total_epochs
      → 4 ≤ length times
      → let gone = cancel_job Loss now w in
        let v = acts Loss torch (threads times) gone in
        (gone.job.status ≡ cancelled)
        × (v.at ≡ finished)
        × (v.job.status ≡ running)
        × (v.job.epochs_completed ≡ w.job.epochs_completed)
  unfolding cancel_job
  cancelled_keeps_running now [] w place goes_on known ready some_epochs long =
      absurd (omega (arith, long))
  cancelled_keeps_running now (a ∷ []) w place goes_on known ready some_epochs long =
      absurd (omega (arith, long))
  cancelled_keeps_running now (a ∷ b ∷ []) w place goes_on known ready some_epochs long =
      absurd (omega (arith, long))
  cancelled_keeps_running now (a ∷ b ∷ c ∷ []) w place goes_on known ready some_epochs long =
      absurd (omega (arith, long))
  cancelled_keeps_running now (a ∷ b ∷ c ∷ d ∷ times) w place goes_on known ready some_epochs long =
      rw (goes_on, cancel_job)
        (let gone : Training Loss =
            set_status Loss cancelled
              (record w { job = record w.job { completed_at = some now }; is_cancelled = true }) in
          elim place [
            | inl e ↦
                let first : act Loss torch (thread a) gone ≡ record gone { at = starting } =
                  unfold act in (rw (e, advance) refl) in
                let all : acts Loss torch (threads (a ∷ b ∷ c ∷ d ∷ times)) gone
                    ≡ record (set_status Loss running gone) { at = finished } =
                  unfold acts in
                  (ap (acts Loss torch (threads (b ∷ c ∷ d ∷ times))) first
                    ∙ from_start b c d times (record gone { at = starting }) refl refl known ready
                        some_epochs) in
                (
                  refl,
                  ap (λ (v : Training Loss). v.at) all,
                  ap (λ (v : Training Loss). v.job.status) all,
                  ap (λ (v : Training Loss). v.job.epochs_completed) all,
                )
            | inr e ↦
                let all : acts Loss torch (threads (a ∷ b ∷ c ∷ d ∷ times)) gone
                    ≡ record (set_status Loss running gone) { at = finished } =
                  from_start a b c (d ∷ times) gone e refl known ready some_epochs in
                (
                  refl,
                  ap (λ (v : Training Loss). v.at) all,
                  ap (λ (v : Training Loss). v.job.status) all,
                  ap (λ (v : Training Loss). v.job.epochs_completed) all,
                )
          ])
