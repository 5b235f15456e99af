-- ===== src/MlInference/Alerts.antt =====
-- anomaly_detector.py: which alerts a batch publishes, and what it acknowledges.
use g_io_t_edge_gateway.Prelude.{
  All, Any, Bool-cases, List, String, [], arith, false, inl, inr, keep, map, nat_eq, none, not,
  refl, some, string_eq, subst, true, ◌∷◌, ◌≡◌,
}
use g_io_t_edge_gateway.Dict.{Dict}
use g_io_t_edge_gateway.Floats.{Floats}
use g_io_t_edge_gateway.Shared.Telemetry.{Codec, TelemetryReading}
use g_io_t_edge_gateway.MlInference.FeatureExtractor.{FeatureExtractor, Payloads}
use g_io_t_edge_gateway.MlInference.Engine.{InferenceEngine, score}
use g_io_t_edge_gateway.MlInference.AnomalyDetector.{
  alert_of, alerts_for, detect, is_valid, process_batch, read_entries, zip,
}

module _ (c : Codec) (f : Floats) (p : Payloads c f) where
  open f use {Float, lt, le, lit}

  -- The readings whose score is not at or below the threshold.
  abbrev pub anomalies :
      Float → List (TelemetryReading c × Float) → List (TelemetryReading c × Float)
  anomalies threshold scores = keep (λ r. not (le r.1 threshold)) scores

  abbrev pub Valid : TelemetryReading c × Float → Type 0
  Valid r = is_valid c f p r.1 ≡ true

  anomalies-low :
      (threshold : Float) (r : TelemetryReading c × Float)
      (rest : List (TelemetryReading c × Float))
      → le r.1 threshold ≡ true
      → anomalies threshold (r ∷ rest) ≡ anomalies threshold rest
  unfolding keep
  anomalies-low threshold r rest low = ground (arith, low)

  anomalies-high :
      (threshold : Float) (r : TelemetryReading c × Float)
      (rest : List (TelemetryReading c × Float))
      → le r.1 threshold ≡ false
      → anomalies threshold (r ∷ rest) ≡ r ∷ anomalies threshold rest
  unfolding keep
  anomalies-high threshold r rest high = ground (arith, high)

  alerts_for_lem :
      (threshold : Float) (version : String) (scores : List (TelemetryReading c × Float))
      → All Valid (anomalies threshold scores)
      → alerts_for c f p threshold version scores
        ≡ some (map (alert_of c f p version) (anomalies threshold scores))
  unfolding alerts_for keep
  alerts_for_lem threshold version [] valid = refl
  alerts_for_lem threshold version ((reading, s) ∷ rest) valid =
      elim (Bool-cases (le s threshold)) [
        | inl low ↦
            let same = anomalies-low threshold (reading, s) rest low in
            rw same (
              rw (low, alerts_for)
                (alerts_for_lem threshold version rest (subst (All Valid) same valid)))
        | inr high ↦
            let same = anomalies-high threshold (reading, s) rest high in
            let both = subst (All Valid) same valid in
            rw same (ground (arith, high, both.0, alerts_for_lem threshold version rest both.1))
      ]

  alerts_for-invalid :
      (threshold : Float) (version : String) (scores : List (TelemetryReading c × Float))
      → Any (λ r. is_valid c f p r.1 ≡ false) (anomalies threshold scores)
      → alerts_for c f p threshold version scores ≡ none
  unfolding alerts_for keep
  alerts_for-invalid threshold version [] bad = absurd bad
  alerts_for-invalid threshold version ((reading, s) ∷ rest) bad =
      let Invalid : TelemetryReading c × Float → Type 0 = λ r. is_valid c f p r.1 ≡ false in
      elim (Bool-cases (le s threshold)) [
        | inl low ↦
            let same = anomalies-low threshold (reading, s) rest low in
            rw (low, alerts_for)
              (alerts_for-invalid threshold version rest (subst (Any Invalid) same bad))
        | inr high ↦
            elim (subst (Any Invalid) (anomalies-high threshold (reading, s) rest high) bad) [
              | inl now ↦ ground (arith, high, now)
              | inr later ↦ ground (arith, high, alerts_for-invalid threshold version rest later)
            ]
      ]

  -- The readings of a batch with their scores, where the model scores them.
  abbrev pub scored_readings :
      FeatureExtractor c f p
      → List (String × Dict String String)
      → List Float
      → List (TelemetryReading c × Float)
  scored_readings e entries scores = zip c f p (read_entries c f p e entries).1 scores

  detect_lem :
      (threshold : Float) (engine : InferenceEngine f)
      (readings : List (TelemetryReading c × List Float)) (scores : List Float)
      → score f engine (map (λ x. x.1) readings) ≡ some scores
      → detect c f p threshold engine readings
        ≡ alerts_for c f p threshold engine.model_version (zip c f p readings scores)
  unfolding alerts_for
  detect_lem threshold engine [] scores answered = refl
  detect_lem threshold engine (r ∷ rs) scores answered = rw answered refl

  -- If the model answers with `scores`, and all scores above the threshold are from 0 to 1, then
  -- the pipeline publishes one alert for each of them, in order, and acknowledges every entry of
  -- the batch, those that cannot be read included.
  pub process_batch_publishes :
      (threshold : Float) (engine : InferenceEngine f) (e : FeatureExtractor c f p)
      (entries : List (String × Dict String String)) (scores : List Float)
      → score f engine (map (λ x. x.1) (read_entries c f p e entries).1) ≡ some scores
      → All Valid (anomalies threshold (scored_readings e entries scores))
      → (process_batch c f p threshold engine e entries).1
        ≡ some (record {
          alerts =
              map
                (alert_of c f p engine.model_version)
                (anomalies threshold (scored_readings e entries scores));
          acked = map (λ entry. entry.0) entries;
        })
  unfolding process_batch
  process_batch_publishes threshold engine e entries scores answered valid =
      rw (detect_lem threshold engine (read_entries c f p e entries).1 scores answered) (
        rw (alerts_for_lem threshold engine.model_version (scored_readings e entries scores) valid)
          refl)

  -- One score above the threshold that is not from 0 to 1, such as a NaN, and the batch publishes
  -- no alert and acknowledges no entry.
  pub process_batch_loses :
      (threshold : Float) (engine : InferenceEngine f) (e : FeatureExtractor c f p)
      (entries : List (String × Dict String String)) (scores : List Float)
      → score f engine (map (λ x. x.1) (read_entries c f p e entries).1) ≡ some scores
      → Any
          (λ r. is_valid c f p r.1 ≡ false)
          (anomalies threshold (scored_readings e entries scores))
      → (process_batch c f p threshold engine e entries).1 ≡ none
  unfolding process_batch
  process_batch_loses threshold engine e entries scores answered bad =
      rw (detect_lem threshold engine (read_entries c f p e entries).1 scores answered) (
        rw
          (alerts_for-invalid threshold engine.model_version (scored_readings e entries scores) bad)
          refl)
