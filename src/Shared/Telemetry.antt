-- ===== src/Shared/Telemetry.antt =====
-- shared/shared/models/telemetry.py. UUIDs, times and JSON values are parameters, with the
-- functions that the code calls on them.
use g_io_t_edge_gateway.Prelude.{
  Option, String, [], arith, nat_eq, some, string_eq, ◌>>=◌, ◌∷◌, ◌≡◌,
}
use g_io_t_edge_gateway.Dict.{Dict, lookup}

pub record Codec : Type 1 where
  pub Uuid : Type 0
  pub Time : Type 0
  pub Json : Type 0
  -- `str(uuid)` and `UUID(text)`; `none` where it raises.
  pub show_uuid : Uuid → String
  pub parse_uuid : String → Option Uuid
  pub isoformat : Time → String
  pub fromisoformat : String → Option Time
  -- `model_dump_json(include={field})` of a value, and `json.loads(text)[field]`.
  pub dump : String → Json → String
  pub load : String → String → Option Json

pub record CodecLaws (c : Codec) : Type 0 where
  pub parse_show : (u : c.Uuid) → c.parse_uuid (c.show_uuid u) ≡ some u
  pub fromisoformat_isoformat : (t : c.Time) → c.fromisoformat (c.isoformat t) ≡ some t
  pub load_dump : (field : String) (j : c.Json) → c.load field (c.dump field j) ≡ some j

module _ (c : Codec) where
  open c use {Uuid, Time, Json, show_uuid, parse_uuid, isoformat, fromisoformat, dump, load}

  pub record TelemetryReading : Type 0 where
    pub device_id : Uuid
    pub device_type : String
    pub timestamp : Time
    pub payload : Json
    pub metadata : Json

  unfoldable pub to_stream_dict : TelemetryReading → Dict String String
  to_stream_dict reading =
      ("device_id", show_uuid reading.device_id)
      ∷ ("device_type", reading.device_type)
      ∷ ("timestamp", isoformat reading.timestamp)
      ∷ ("payload", dump "payload" reading.payload)
      ∷ ("metadata", dump "metadata" reading.metadata)
      ∷ []

  -- `none` where a key is missing or a text is malformed: the code raises.
  unfoldable pub from_stream_dict : Dict String String → Option TelemetryReading
  from_stream_dict entry = do
    device ← lookup "device_id" entry
    device_type ← lookup "device_type" entry
    time ← lookup "timestamp" entry
    timestamp ← fromisoformat time
    body ← lookup "payload" entry
    payload ← load "payload" body
    extra ← lookup "metadata" entry
    metadata ← load "metadata" extra
    device_id ← parse_uuid device
    some (record {
      device_id = device_id;
      device_type = device_type;
      timestamp = timestamp;
      payload = payload;
      metadata = metadata;
    })

  -- A reading survives its way through a Redis stream, if UUIDs, times and JSON survive theirs.
  pub from_stream_dict-to_stream_dict :
      CodecLaws c
      → (reading : TelemetryReading) → from_stream_dict (to_stream_dict reading) ≡ some reading
  unfolding from_stream_dict to_stream_dict lookup
  from_stream_dict-to_stream_dict laws reading = ground (
    arith,
    laws.parse_show reading.device_id,
    laws.fromisoformat_isoformat reading.timestamp,
    laws.load_dump "payload" reading.payload,
    laws.load_dump "metadata" reading.metadata,
  )
