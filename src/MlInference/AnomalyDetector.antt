-- ===== src/MlInference/AnomalyDetector.antt =====
-- services/anomaly_detector.py and the alerts of shared/shared/models/alert.py. An alert's id and
-- time are left out.
use g_io_t_edge_gateway.Prelude.{
  Bool, List, Option, String, [], if◌then◌else◌, map, nat_eq, none, some, string_eq, ◌&&◌, ◌>>=◌,
  ◌∷◌,
}
use g_io_t_edge_gateway.Dict.{Dict}
use g_io_t_edge_gateway.Floats.{Floats}
use g_io_t_edge_gateway.Shared.Telemetry.{Codec, TelemetryReading, from_stream_dict}
use g_io_t_edge_gateway.MlInference.FeatureExtractor.{FeatureExtractor, Payloads, extract_row}
use g_io_t_edge_gateway.MlInference.Engine.{InferenceEngine, score}

pub data AlertSeverity : Type 0 where
  info warning critical : AlertSeverity

module _ (c : Codec) (f : Floats) (p : Payloads c f) where
  open f use {Float, lt, le, lit}

  pub record Alert : Type 0 where
    pub device_id : c.Uuid
    pub severity : AlertSeverity
    pub anomaly_score : Float
    pub model_version : String
    pub details : c.Json

  abbrev pub severity_of : Float → AlertSeverity
  severity_of score = if lt (lit 9 1) score then critical else warning

  abbrev pub alert_of : String → TelemetryReading c × Float → Alert
  alert_of version (reading, score) = record {
    device_id = reading.device_id;
    severity = severity_of score;
    anomaly_score = score;
    model_version = version;
    details = reading.payload;
  }

  -- The constraint `ge=0.0, le=1.0` of the field, which an alert checks.
  abbrev pub is_valid : Float → Bool
  is_valid score = le (lit 0 0) score && le score (lit 1 0)

  -- The body of its `try`.
  abbrev pub read_entry :
      FeatureExtractor c f p
      → Dict String String
      → Option (TelemetryReading c × FeatureExtractor c f p × List Float)
  read_entry e fields = do
    reading ← from_stream_dict c fields
    r ← extract_row c f p e reading
    some (reading, r.0, r.1)

  abbrev pub with_reading :
      TelemetryReading c × List Float
      → FeatureExtractor c f p × List (TelemetryReading c × List Float)
      → FeatureExtractor c f p × List (TelemetryReading c × List Float)
  with_reading r (e, rest) = (e, r ∷ rest)

  -- The loop over the entries: the readings and rows of those that can be read.
  unfoldable pub read_entries :
      FeatureExtractor c f p
      → List (String × Dict String String)
      → FeatureExtractor c f p × List (TelemetryReading c × List Float)
  read_entries e [] = (e, [])
  read_entries e ((id, fields) ∷ entries) = elim (read_entry e fields) [
    | none ↦ read_entries e entries
    | some (reading, e', row) ↦ with_reading (reading, row) (read_entries e' entries)
  ]

  abbrev add_alert : Alert → Option (List Alert) → Option (List Alert)
  add_alert alert none = none
  add_alert alert (some alerts) = some (alert ∷ alerts)

  -- The loop over the scores: the alerts that go into the pipeline; `none` where an alert raises.
  unfoldable pub alerts_for :
      Float → String → List (TelemetryReading c × Float) → Option (List Alert)
  alerts_for threshold version [] = some []
  alerts_for threshold version ((reading, score) ∷ rest) =
      let others = alerts_for threshold version rest in
      if le score threshold
      then others
      else if is_valid score
      then add_alert (alert_of version (reading, score)) others
      else none

  abbrev pub zip :
      List (TelemetryReading c × List Float) → List Float → List (TelemetryReading c × Float)
  zip [] scores = []
  zip (r ∷ rs) [] = []
  zip (r ∷ rs) (s ∷ scores) = (r.0, s) ∷ zip rs scores

  -- What the pipeline sends: XADD of the alerts, then one XACK.
  pub record Pipeline : Type 0 where
    pub alerts : List Alert
    pub acked : List String

  abbrev pub scored :
      Float
      → String
      → List (TelemetryReading c × List Float)
      → Option (List Float)
      → Option (List Alert)
  scored threshold version readings none = none
  scored threshold version readings (some scores) =
      alerts_for threshold version (zip readings scores)

  -- Without a reading nothing is scored.
  abbrev pub detect :
      Float → InferenceEngine f → List (TelemetryReading c × List Float) → Option (List Alert)
  detect threshold engine [] = some []
  detect threshold engine (r ∷ rs) =
      scored threshold engine.model_version (r ∷ rs) (score f engine (map (λ x. x.1) (r ∷ rs)))

  -- `none` where it raises before the pipeline is sent; the windows have changed by then.
  unfoldable pub process_batch :
      Float
      → InferenceEngine f
      → FeatureExtractor c f p
      → List (String × Dict String String)
      → FeatureExtractor c f p × Option Pipeline
  process_batch threshold engine e entries =
      let (e', readings) = read_entries e entries in
      (
        e',
        do
          alerts ← detect threshold engine readings
          some (record { alerts = alerts; acked = map (λ entry. entry.0) entries }),
      )
