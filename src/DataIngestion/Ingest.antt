-- ===== src/DataIngestion/Ingest.antt =====
-- services/ingestion_service.py, and `_handle_message` of services/mqtt_subscriber.py. JSON values
-- and pydantic's validation are parameters, and so is what Redis trims of the stream.
use g_io_t_edge_gateway.Prelude.{
  Bool, List, Option, String, [], contains, false, if◌then◌else◌, keep, nat_eq, none, not, some,
  string_eq, suc, true, ℕ, ◌++◌, ◌==◌, ◌>>=◌, ◌∷◌,
}
use g_io_t_edge_gateway.Dict.{Dict, insert, lookup}
use g_io_t_edge_gateway.Shared.Outcome.{Outcome, down, fine, lost}
use g_io_t_edge_gateway.Shared.Telemetry.{Codec, TelemetryReading, to_stream_dict}
use g_io_t_edge_gateway.DataIngestion.StreamMonitor.{StreamMonitor, record_device}

pub record Bodies (c : Codec) : Type 1 where
  pub Value : Type 0
  pub text : String → Value
  pub object : Dict String Value → Value
  -- `TelemetryReading(**data)`; `none` where it raises.
  pub validate : Dict String Value → Option (TelemetryReading c)
  -- The setting, and what XADD with `MAXLEN ~` leaves of the entries of the stream.
  pub stream_max_len : ℕ
  pub trim : ℕ → List (Dict String String) → List (Dict String String)

-- A message: its topic, split at "/"; its body, `none` where it is no JSON object; and the time, as
-- text and as a count of microseconds.
pub record Message (c : Codec) (b : Bodies c) : Type 0 where
  pub topic_parts : List String
  pub body : Option (Dict String b.Value)
  pub utcnow : String
  pub now : ℕ

module _ (c : Codec) (b : Bodies c) where
  open b use {Value, text, object, validate, stream_max_len, trim}

  -- The monitor, the two counters, the entries that the stream has, and all that XADD has ever
  -- added to it, the oldest first.
  pub record Ingestion : Type 0 where
    pub monitor : StreamMonitor
    pub received : ℕ
    pub published : ℕ
    pub stream : List (Dict String String)
    pub added : List (Dict String String)

  abbrev pub xadd_entry : Dict String String → Ingestion → Ingestion
  xadd_entry entry i = record i {
    stream = trim stream_max_len (i.stream ++ entry ∷ []);
    added = i.added ++ entry ∷ [];
  }

  -- XADD, and what follows it where it is answered.
  abbrev pub publish : Outcome → Dict String String → Ingestion → Ingestion
  publish fine entry i = record (xadd_entry entry i) { published = suc i.published }
  publish lost entry i = xadd_entry entry i
  publish down entry i = i

  unfoldable pub process : ℕ → Outcome → TelemetryReading c → Ingestion → Ingestion
  process now xadd reading i = publish xadd (to_stream_dict c reading) (record i {
    received = suc i.received;
    monitor = record_device now (c.show_uuid reading.device_id) reading.device_type i.monitor;
  })

  abbrev pub has : String → Dict String Value → Bool
  has k data' = elim (lookup k data') [ some v ↦ true | none ↦ false ]

  abbrev pub set_default : String → Value → Dict String Value → Dict String Value
  set_default k v data' = if has k data' then data' else insert k v data'

  -- `topic_parts[1] if len(topic_parts) >= 3 else None`.
  abbrev pub topic_device_id : List String → Option String
  topic_device_id [] = none
  topic_device_id (x ∷ []) = none
  topic_device_id (x ∷ y ∷ []) = none
  topic_device_id (x ∷ y ∷ z ∷ rest) = some y

  abbrev pub with_device_id : Option String → Dict String Value → Dict String Value
  with_device_id none data' = data'
  with_device_id (some id) data' =
      if id == "" then data' else set_default "device_id" (text id) data'

  abbrev known_keys : List String
  known_keys = "device_id" ∷ "device_type" ∷ "timestamp" ∷ "metadata" ∷ []

  abbrev pub sensor_data : Dict String Value → Dict String Value
  sensor_data data' = keep (λ e. not (contains e.0 known_keys)) data'

  -- The body with the defaults of the fields that it lacks.
  unfoldable pub with_defaults : List String → String → Dict String Value → Dict String Value
  with_defaults topic_parts utcnow data0 =
      let data1 = with_device_id (topic_device_id topic_parts) data0 in
      let data2 = set_default "device_type" (text "unknown") data1 in
      let data3 = set_default "timestamp" (text utcnow) data2 in
      set_default "payload" (object (sensor_data data3)) data3

  abbrev pub reading_of : Message c b → Option (TelemetryReading c)
  reading_of m = do data' ← m.body; validate (with_defaults m.topic_parts m.utcnow data')

  -- Every exception is caught and logged.
  unfoldable pub handle_message : Outcome → Message c b → Ingestion → Ingestion
  handle_message xadd m i = elim (reading_of m) [
    | none ↦ i
    | some reading ↦ process m.now xadd reading i
  ]

  unfoldable pub handle_messages : List (Message c b × Outcome) → Ingestion → Ingestion
  handle_messages [] i = i
  handle_messages ((m, xadd) ∷ ms) i = handle_messages ms (handle_message xadd m i)
