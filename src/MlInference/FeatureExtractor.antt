-- ===== src/MlInference/FeatureExtractor.antt =====
-- services/feature_extractor.py. The values of a payload, `float`, `isinstance` and
-- `statistics.median` are parameters.
use g_io_t_edge_gateway.Prelude.{
  Bool, List, Option, String, [], contains, drop, if◌then◌else◌, is_empty, leb, length, map, nat_eq,
  none, not, some, string_eq, ℕ, ◌&&◌, ◌++◌, ◌-◌, ◌==◌, ◌>>=◌, ◌∷◌,
}
use g_io_t_edge_gateway.Dict.{Dict, erase, get_or, insert, lookup, values}
use g_io_t_edge_gateway.Floats.{Floats, float_max, float_min}
use g_io_t_edge_gateway.Shared.Telemetry.{Codec, TelemetryReading}

pub record Payloads (c : Codec) (f : Floats) : Type 1 where
  pub Value : Type 0
  -- The items of a JSON object.
  pub items : c.Json → Dict String Value
  -- `float(v)`; `none` where it raises.
  pub to_float : Value → Option f.Float
  -- `isinstance(v, (int, float)) and not isinstance(v, bool)`.
  pub is_number : Value → Bool
  pub median : List f.Float → f.Float

abbrev pub sensor_fields : Dict String (String × String)
sensor_fields =
    ("temperature_sensor", ("temperature_celsius", "humidity_percent"))
    ∷ ("pressure_sensor", ("pressure_hpa", "flow_rate_lpm"))
    ∷ ("vibration_sensor", ("rms_velocity_mm_s", "peak_frequency_hz"))
    ∷ []

abbrev pub min_history : ℕ
min_history = 5

abbrev skip_keys : List String
skip_keys = "anomaly" ∷ "anomaly_type" ∷ "unit" ∷ []

module _ (c : Codec) (f : Floats) (p : Payloads c f) where
  open f use {Float, lt, add, sub, mul, div, lit, minus_one}
  open p use {Value, items, to_float, is_number, median}

  pub record Scale : Type 0 where
    pub mean : Float
    pub std : Float

  -- The statistics are {device_type: {field: (mean, std)}}; a window lists the oldest values first.
  pub record FeatureExtractor : Type 0 where
    pub window_size : ℕ
    pub stats : Dict String (Dict String (Float × Float))
    pub windows : Dict String (List (Float × Float))

  abbrev with_first : Option Float → Option (List Float) → Option (List Float)
  with_first first others = do x ← first; xs ← others; some (x ∷ xs)

  -- The fallback: the first two numbers, with zeros for those that are missing.
  unfoldable pub numeric : Dict String Value → Option (List Float)
  numeric [] = some []
  numeric ((k, v) ∷ rest) =
      let others = numeric rest in
      if not (contains k skip_keys) && is_number v then with_first (to_float v) others else others

  abbrev pub first_two : List Float → Float × Float
  first_two [] = (lit 0 0, lit 0 0)
  first_two (x ∷ []) = (x, lit 0 0)
  first_two (x ∷ y ∷ rest) = (x, y)

  abbrev pub fallback_values : Dict String Value → Option (Float × Float)
  fallback_values payload = do xs ← numeric payload; some (first_two xs)

  -- The fields of a known type, if the payload has both.
  abbrev pub field_values : Dict String Value → Option Value → Option Value → Option (Float × Float)
  field_values payload (some v) (some w) = do a ← to_float v; b ← to_float w; some (a, b)
  field_values payload (some v) none = fallback_values payload
  field_values payload none w = fallback_values payload

  unfoldable pub read_values : TelemetryReading c → Option (Float × Float)
  read_values reading =
      let payload = items reading.payload in
      elim (lookup reading.device_type sensor_fields) [
        | none ↦ fallback_values payload
        | some fields ↦ field_values payload (lookup fields.0 payload) (lookup fields.1 payload)
      ]

  abbrev identity_scale : Scale
  identity_scale = record { mean = lit 0 0; std = lit 1 0 }

  -- `mean, std = type_stats[fields[index]]`, and the floor of the deviation.
  abbrev floored : Option (Float × Float) → Option Scale
  floored none = none
  floored (some (mean, std)) = some (record { mean = mean; std = float_max f std (lit 1 6) })

  abbrev both : Option Scale → Option Scale → Option (Scale × Scale)
  both first second = do a ← first; b ← second; some (a, b)

  -- The scales of both fields: an identity for a type without fields or statistics; `none` where a
  -- field has no statistics, and the code raises.
  unfoldable pub scales : FeatureExtractor → String → Option (Scale × Scale)
  scales e device_type = elim (lookup device_type sensor_fields) [
    | none ↦ some (identity_scale, identity_scale)
    | some fields ↦ elim (lookup device_type e.stats) [
      | none ↦ some (identity_scale, identity_scale)
      | some type_stats ↦
          if is_empty type_stats
          then some (identity_scale, identity_scale)
          else both (floored (lookup fields.0 type_stats)) (floored (lookup fields.1 type_stats))
    ]
  ]

  -- `append` to a deque with a `maxlen`.
  unfoldable pub append_bounded : ℕ → List (Float × Float) → Float × Float → List (Float × Float)
  append_bounded maxlen xs x = drop (length (xs ++ x ∷ []) - maxlen) (xs ++ x ∷ [])

  -- The deviations from the medians of the window.
  unfoldable pub deviations : List (Float × Float) → Float × Float → Float → Float → Float × Float
  deviations window (a, b) std_a std_b =
      if leb min_history (length window)
      then (
        div (sub a (median (map (λ v. v.0) window))) std_a,
        div (sub b (median (map (λ v. v.1) window))) std_b,
      )
      else (lit 0 0, lit 0 0)

  -- `max(-_FEATURE_CLIP, min(_FEATURE_CLIP, x))`.
  abbrev pub clip_low : Float
  clip_low = mul minus_one (lit 1000 0)

  abbrev pub clip_high : Float
  clip_high = lit 1000 0

  abbrev pub clip : Float → Float
  clip x = float_max f clip_low (float_min f clip_high x)

  abbrev pub one_hot : String → List Float
  one_hot device_type = map (λ t. if device_type == t.0 then lit 1 0 else lit 0 0) sensor_fields

  -- No learned scale for a type without fields.
  abbrev pub z_scores : Option (String × String) → Float × Float → Scale × Scale → Float × Float
  z_scores none values s = (lit 0 0, lit 0 0)
  z_scores (some fields) (a, b) (sa, sb) = (div (sub a sa.mean) sa.std, div (sub b sb.mean) sb.std)

  -- The row before it is clipped.
  unfoldable pub raw_row :
      FeatureExtractor → TelemetryReading c → Float × Float → Scale × Scale → List Float
  raw_row e reading values s =
      let window = get_or (c.show_uuid reading.device_id) [] e.windows in
      let dev = deviations window values s.0.std s.1.std in
      let z = z_scores (lookup reading.device_type sensor_fields) values s in
      z.0 ∷ z.1 ∷ dev.0 ∷ dev.1 ∷ one_hot reading.device_type

  unfoldable pub append_window :
      FeatureExtractor → TelemetryReading c → Float × Float → FeatureExtractor
  append_window e reading values =
      let key = c.show_uuid reading.device_id in
      record e {
        windows =
            insert key (append_bounded e.window_size (get_or key [] e.windows) values) e.windows;
      }

  -- `none` where the code raises, which it does before it changes a window.
  unfoldable pub extract_row :
      FeatureExtractor → TelemetryReading c → Option (FeatureExtractor × List Float)
  extract_row e reading = do
    values ← read_values reading
    s ← scales e reading.device_type
    some (append_window e reading values, map clip (raw_row e reading values s))

  unfoldable pub clear_window : String → FeatureExtractor → FeatureExtractor
  clear_window key e = record e { windows = erase key e.windows }
