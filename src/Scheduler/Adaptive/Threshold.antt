-- ===== src/Scheduler/Adaptive/Threshold.antt =====
-- adaptive_scheduler.py: the bounds of the CPU threshold, and which edge node is picked.
use g_io_t_edge_gateway.Prelude.{
  List, String, [], arith, false, length, length-drop, nat_eq, refl, string_eq, subst, sym, ℕ, ◌++◌,
  ◌-◌, ◌∷◌, ◌≡◌, ◌≤◌,
}
use g_io_t_edge_gateway.Floats.{FloatLaws, Floats}
use g_io_t_edge_gateway.Scheduler.Adaptive.{
  AdaptiveScheduler, adjust_thresholds, init, push_bounded, record_latency,
}

module _ (f : Floats) where
  -- The threshold is at least 60 and at most 90.
  abbrev pub InBounds : AdaptiveScheduler f → Type 0
  InBounds a =
      (f.lt a.dynamic_cpu_threshold (f.lit 600 1) ≡ false)
      × (f.lt (f.lit 900 1) a.dynamic_cpu_threshold ≡ false)

  -- The scheduler after a list of observed latencies.
  pub observe : AdaptiveScheduler f → List f.Float → AdaptiveScheduler f
  observe a [] = a
  observe a (x ∷ xs) = observe (record_latency f a x) xs

  module _ (laws : FloatLaws f) where
    -- What the code relies on: adding 1.0 does not lessen a number, nor subtracting 2.0 raise it.
    abbrev pub Steps : Type 0
    Steps =
        ((x : f.Float) → f.lt (f.add x (f.lit 10 1)) x ≡ false)
        × ((x : f.Float) → f.lt x (f.sub x (f.lit 20 1)) ≡ false)

    adjust_thresholds-InBounds :
        Steps → (a : AdaptiveScheduler f) → InBounds a → InBounds (adjust_thresholds f a)
    unfolding adjust_thresholds
    adjust_thresholds-InBounds steps a h =
        let t = a.dynamic_cpu_threshold in
        let up = f.add t (f.lit 10 1) in
        let down = f.sub t (f.lit 20 1) in
        ground (
          arith,
          steps.0 t,
          steps.1 t,
          laws.lt_lit 600 900 1,
          laws.lt_lit 900 600 1,
          laws.lt_irrefl (f.lit 900 1),
          laws.lt_irrefl (f.lit 600 1),
          laws.lt_compare up t (f.lit 600 1),
          laws.lt_compare (f.lit 900 1) t down,
          laws.lt_trans (f.lit 900 1) up (f.lit 900 1),
          laws.lt_trans (f.lit 600 1) down (f.lit 600 1),
        )

    init-InBounds :
        (sla : f.Float) (endpoint : String) (window : ℕ) → InBounds (init f sla endpoint window)
    unfolding init
    init-InBounds sla endpoint window = (laws.lt_lit 800 600 1, laws.lt_lit 900 800 1)

    record_latency-InBounds :
        Steps
        → (a : AdaptiveScheduler f) (x : f.Float) → InBounds a
        → InBounds (record_latency f a x)
    unfolding record_latency
    record_latency-InBounds steps a x h = adjust_thresholds-InBounds steps _ h

    observe-InBounds :
        Steps → (a : AdaptiveScheduler f) (xs : List f.Float) → InBounds a → InBounds (observe a xs)
    unfolding observe
    observe-InBounds steps a [] h = h
    observe-InBounds steps a (x ∷ xs) h =
        observe-InBounds steps (record_latency f a x) xs (record_latency-InBounds steps a x h)

    -- The CPU threshold of a scheduler stays between 60 and 90, whatever latencies it observes.
    pub threshold_stays :
        Steps
        → (sla : f.Float) (endpoint : String) (window : ℕ) (xs : List f.Float)
        → InBounds (observe (init f sla endpoint window) xs)
    threshold_stays steps sla endpoint window xs =
        observe-InBounds steps (init f sla endpoint window) xs (init-InBounds sla endpoint window)

  -- The scheduler has the window, and no more observations than that.
  abbrev IsBounded : ℕ → AdaptiveScheduler f → Type 0
  IsBounded window a = (a.window_size ≡ window) × (length a.latency_observations ≤ window)

  push_bounded_lem :
      (window : ℕ) (xs : List f.Float) (x : f.Float) → length (push_bounded f window xs x) ≤ window
  unfolding push_bounded
  push_bounded_lem window xs x =
      omega (arith, length-drop (length (xs ++ x ∷ []) - window) (xs ++ x ∷ []))

  adjust_thresholds-IsBounded :
      (window : ℕ) (a : AdaptiveScheduler f)
      → IsBounded window a
      → IsBounded window (adjust_thresholds f a)
  unfolding adjust_thresholds
  adjust_thresholds-IsBounded window a h = ground arith

  observe-IsBounded :
      (window : ℕ) (a : AdaptiveScheduler f) (xs : List f.Float)
      → IsBounded window a
      → IsBounded window (observe a xs)
  unfolding observe record_latency
  observe-IsBounded window a [] h = h
  observe-IsBounded window a (x ∷ xs) (same, h) =
      observe-IsBounded window (record_latency f a x) xs (
        adjust_thresholds-IsBounded window _ (
          same,
          subst (λ w. length (push_bounded f w a.latency_observations x) ≤ window) (sym same)
              (push_bounded_lem window a.latency_observations x),
        ))

  -- A scheduler never holds more observations than its window.
  pub observations_bounded :
      (sla : f.Float) (endpoint : String) (window : ℕ) (xs : List f.Float)
      → length (observe (init f sla endpoint window) xs).latency_observations ≤ window
  unfolding init
  observations_bounded sla endpoint window xs =
      (observe-IsBounded window (init f sla endpoint window) xs (refl, omega arith)).1
