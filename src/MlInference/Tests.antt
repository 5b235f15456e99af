-- ===== src/MlInference/Tests.antt =====
-- The inference service at concrete inputs, over the decimal numbers of the scheduler's tests.
use g_io_t_edge_gateway.Prelude.{
  All, Any, List, Option, String, [], arith, contains, false, inl, keep, map, nat_eq, none, refl,
  some, string_eq, true, ℕ, ◌∷◌, ◌≡◌,
}
use g_io_t_edge_gateway.Dict.{Dict, lookup}
use g_io_t_edge_gateway.Shared.Telemetry.{from_stream_dict, to_stream_dict}
use g_io_t_edge_gateway.Shared.Tests.{plain, sample}
use g_io_t_edge_gateway.Scheduler.Tests.{fixed}
use g_io_t_edge_gateway.MlInference.FeatureExtractor.{
  FeatureExtractor, Payloads, extract_row, numeric, read_values, scales,
}
use g_io_t_edge_gateway.MlInference.Windows.{Extracted, extract_row_lem}
use g_io_t_edge_gateway.MlInference.Engine.{
  InferenceEngine, Metadata, ModelFiles, Session, SwapFails, failed_swap, hot_swap, init,
  load_model, predict, score,
}
use g_io_t_edge_gateway.MlInference.AnomalyDetector.{
  alert_of, is_valid, process_batch, read_entries,
}
use g_io_t_edge_gateway.MlInference.Alerts.{
  Valid, anomalies, process_batch_publishes, scored_readings,
}

-- Every payload has the two values of a thermometer, 21 and 40.
abbrev payloads : Payloads plain fixed
payloads = record {
  Value = ℕ;
  items = λ j. ("temperature_celsius", 21) ∷ ("humidity_percent", 40) ∷ [];
  to_float = λ v. some (fixed.lit v 0);
  is_number = λ v. true;
  median = λ xs. fixed.lit 21 0;
}

abbrev extractor : FeatureExtractor plain fixed payloads
extractor = record { window_size = 10; stats = []; windows = [] }

extract_row_lem_example : Extracted plain fixed payloads extractor sample "d2"
extract_row_lem_example =
    extract_row_lem plain fixed payloads (λ a. ground arith) (λ a b d h k. ground arith)
      (ground arith) extractor sample "d2" tt (λ e. ground (arith, string_eq.beq_iff "d2" "d1", e))

-- A session that answers every row with the error 0.5 or 12.
abbrev low_error : Session fixed
low_error = record {
  first_input = some "x";
  run = λ name rows. some (map (λ r. fixed.lit 5 1) rows);
}

abbrev high_error : Session fixed
high_error = record {
  first_input = some "x";
  run = λ name rows. some (map (λ r. fixed.lit 12 0) rows);
}

abbrev sidecar : Option ℕ → Metadata fixed
sidecar threshold = record {
  model_name = some "autoencoder";
  model_version = some "2";
  error_threshold = threshold;
}

abbrev old_engine : InferenceEngine fixed
old_engine =
    (hot_swap fixed 1
      (record { metadata = some (sidecar (some (fixed.lit 1 0))); session = some low_error })
      (init fixed)).0

abbrev new_files : Option ℕ → ModelFiles fixed
new_files threshold = record { metadata = some (sidecar threshold); session = some high_error }

abbrev rows : List (List ℕ)
rows = (0 ∷ []) ∷ []

no_threshold : (hot_swap fixed 2 (new_files none) old_engine).1 ≡ false
unfolding hot_swap load_model
no_threshold = refl

failed_swap_example :
    SwapFails fixed (new_files none) old_engine (hot_swap fixed 2 (new_files none) old_engine).0
failed_swap_example = failed_swap fixed 2 (new_files none) old_engine no_threshold

abbrev entries : List (String × Dict String String)
entries = ("1-0", to_stream_dict plain sample) ∷ ("2-0", []) ∷ []

-- The readable entry has the score 12 / (12 + 1).
abbrev engine : InferenceEngine fixed
engine = (hot_swap fixed 1 (new_files (some (fixed.lit 1 0))) (init fixed)).0

abbrev scores : List ℕ
scores = fixed.div (fixed.lit 12 0) (fixed.add (fixed.lit 12 0) (fixed.lit 1 0)) ∷ []

answered :
    score fixed engine (map (λ x. x.1) (read_entries plain fixed payloads extractor entries).1)
    ≡ some scores
unfolding score predict hot_swap load_model read_entries extract_row from_stream_dict to_stream_dict
    lookup read_values scales numeric contains
answered = refl

abbrev threshold : ℕ
threshold = fixed.lit 8 1

scores-Valid : All (Valid plain fixed payloads) (
    anomalies plain fixed payloads threshold
      (scored_readings plain fixed payloads extractor entries scores))
unfolding keep read_entries extract_row from_stream_dict to_stream_dict lookup read_values scales
    numeric contains
scores-Valid = (refl, tt)

process_batch_publishes_example :
    (process_batch plain fixed payloads threshold engine extractor entries).1
    ≡ some (record {
      alerts = map (alert_of plain fixed payloads engine.model_version) (
          anomalies plain fixed payloads threshold
            (scored_readings plain fixed payloads extractor entries scores));
      acked = "1-0" ∷ "2-0" ∷ [];
    })
process_batch_publishes_example =
    process_batch_publishes plain fixed payloads threshold engine extractor entries scores answered
      scores-Valid

-- A threshold below 0 gives a score of 1.0002 to an error of 0.5.
abbrev odd_engine : InferenceEngine fixed
odd_engine = record old_engine { error_threshold = 0 }

abbrev odd_scores : List ℕ
odd_scores = 10003 ∷ []

odd_answer :
    score fixed odd_engine (map (λ x. x.1) (read_entries plain fixed payloads extractor entries).1)
    ≡ some odd_scores
unfolding score predict hot_swap load_model read_entries extract_row from_stream_dict to_stream_dict
    lookup read_values scales numeric contains
odd_answer = refl

odd_invalid :
    Any
      (λ r. is_valid plain fixed payloads r.1 ≡ false)
      (anomalies plain fixed payloads threshold
        (scored_readings plain fixed payloads extractor entries odd_scores))
unfolding keep read_entries extract_row from_stream_dict to_stream_dict lookup read_values scales
    numeric contains
odd_invalid = inl refl
