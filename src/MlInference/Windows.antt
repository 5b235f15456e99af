-- ===== src/MlInference/Windows.antt =====
-- feature_extractor.py: the rows that the model gets and the windows that the extractor keeps.
use g_io_t_edge_gateway.Prelude.{
  All, Bool-cases, List, Option-cases, String, [], arith, false, inl, inr, length, length-drop, map,
  nat_eq, none, refl, some, string_eq, true, ℕ, ◌++◌, ◌-◌, ◌==◌, ◌∷◌, ◌≡◌, ◌≢◌, ◌≤◌, ◌⊎◌,
}
use g_io_t_edge_gateway.Dict.{Dict, get_or, insert, lookup, values}
use g_io_t_edge_gateway.Dict.Laws.{lookup-insert}
use g_io_t_edge_gateway.Floats.{Floats}
use g_io_t_edge_gateway.Shared.Telemetry.{Codec, TelemetryReading}
use g_io_t_edge_gateway.MlInference.FeatureExtractor.{
  FeatureExtractor, Payloads, append_bounded, append_window, clip, clip_high, clip_low, extract_row,
  raw_row, read_values, scales,
}

module _ (c : Codec) (f : Floats) (p : Payloads c f) where
  open f use {Float, lt}

  -- Neither below the lower clip nor above the upper one.
  abbrev pub IsClipped : Float → Type 0
  IsClipped x = (lt x (clip_low c f p) ≡ false) × (lt (clip_high c f p) x ≡ false)

  clip-IsClipped :
      ((a : Float) → lt a a ≡ false)
      → ((a b d : Float) → lt a b ≡ true → lt b d ≡ true → lt a d ≡ true)
      → lt (clip_low c f p) (clip_high c f p) ≡ true
      → (x : Float) → IsClipped (clip c f p x)
  clip-IsClipped lt_irrefl lt_trans apart x =
      let low = clip_low c f p in
      let high = clip_high c f p in
      ground (
        arith,
        apart,
        lt_irrefl low,
        lt_irrefl high,
        lt_irrefl x,
        lt_trans low high low,
        lt_trans x high x,
        lt_trans low x low,
      )

  map-clip :
      (clips : (x : Float) → IsClipped (clip c f p x)) (xs : List Float)
      → All IsClipped (map (clip c f p) xs)
  map-clip clips [] = tt
  map-clip clips (x ∷ xs) = (clips x, map-clip clips xs)

  abbrev pub IsBounded : FeatureExtractor c f p → Type 0
  IsBounded e = All (λ w. length w.1 ≤ e.window_size) e.windows

  append_bounded_lem :
      (maxlen : ℕ) (xs : List (Float × Float)) (x : Float × Float)
      → length (append_bounded c f p maxlen xs x) ≤ maxlen
  unfolding append_bounded
  append_bounded_lem maxlen xs x =
      omega (arith, length-drop (length (xs ++ x ∷ []) - maxlen) (xs ++ x ∷ []))

  insert-All :
      (P : List (Float × Float) → Type 0) (key : String) (w : List (Float × Float))
      (m : Dict String (List (Float × Float)))
      → P w
      → All (λ e. P e.1) m
      → All (λ e. P e.1) (insert key w m)
  unfolding insert
  insert-All P key w [] h all = (h, tt)
  insert-All P key w ((j, old) ∷ m) h (o, all) = elim (Bool-cases (j == key)) [
    | inl same ↦ rw same (h, all)
    | inr differ ↦ rw differ (o, insert-All P key w m h all)
  ]

  append_window-IsBounded :
      (e : FeatureExtractor c f p) (reading : TelemetryReading c) (values : Float × Float)
      → IsBounded e
      → IsBounded (append_window c f p e reading values)
  unfolding append_window
  append_window-IsBounded e reading values bounded =
      let key : String = c.show_uuid reading.device_id in
      insert-All (λ w. length w ≤ e.window_size) key
        (append_bounded c f p e.window_size (get_or key [] e.windows) values) e.windows
        (append_bounded_lem e.window_size (get_or key [] e.windows) values) bounded

  append_window-other :
      (e : FeatureExtractor c f p) (reading : TelemetryReading c) (values : Float × Float)
      (key : String)
      → key ≢ c.show_uuid reading.device_id
      → lookup key (append_window c f p e reading values).windows ≡ lookup key e.windows
  unfolding append_window
  append_window-other e reading values key other =
      let own : String = c.show_uuid reading.device_id in
      ground (
        arith,
        other,
        lookup-insert own key (append_bounded c f p e.window_size (get_or own [] e.windows) values)
            e.windows,
        string_eq.beq_iff own key,
      )

  -- What a reading gives: no row, if its values or its scales cannot be read, or a row of seven
  -- numbers within the clip. Then the window of `key` is as before, and no window is too long.
  abbrev pub Extracted : FeatureExtractor c f p → TelemetryReading c → String → Type 0
  Extracted e reading key =
      (((read_values c f p reading ≡ none) ⊎ (scales c f p e reading.device_type ≡ none))
        × (extract_row c f p e reading ≡ none))
      ⊎ ((e' : FeatureExtractor c f p) × (row : List Float) × (extract_row c f p e reading
            ≡ some (e', row))
          × (length row ≡ 7)
          × All IsClipped row
          × (lookup key e'.windows ≡ lookup key e.windows)
          × IsBounded e')

  -- The extraction fails where the values of the reading or its scales cannot be read. Else it
  -- gives seven numbers, each within the clip; it leaves the window of every other device as it
  -- is, and no window gets more readings than the window size. Floats may be NaN: all that is
  -- assumed of their order holds for NaN too.
  pub extract_row_lem :
      ((a : Float) → lt a a ≡ false)
      → ((a b d : Float) → lt a b ≡ true → lt b d ≡ true → lt a d ≡ true)
      → lt (clip_low c f p) (clip_high c f p) ≡ true
      → (e : FeatureExtractor c f p) (reading : TelemetryReading c) (key : String) → IsBounded e
      → key ≢ c.show_uuid reading.device_id
      → Extracted e reading key
  unfolding extract_row raw_row
  extract_row_lem lt_irrefl lt_trans apart e reading key bounded other =
      elim (Option-cases (read_values c f p reading)) [
        | inl unread ↦ inl (inl unread, ground (arith, unread))
        | inr (values, was_read) ↦ elim (Option-cases (scales c f p e reading.device_type)) [
          | inl unscaled ↦ inl (inr unscaled, ground (arith, was_read, unscaled))
          | inr (s, scaled) ↦ inr (
            append_window c f p e reading values,
            map (clip c f p) (raw_row c f p e reading values s),
            ground (arith, was_read, scaled),
            refl,
            map-clip (clip-IsClipped lt_irrefl lt_trans apart) (raw_row c f p e reading values s),
            append_window-other e reading values key other,
            append_window-IsBounded e reading values bounded,
          )
        ]
      ]
