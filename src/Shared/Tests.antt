-- ===== src/Shared/Tests.antt =====
-- The shared models at concrete inputs.
use g_io_t_edge_gateway.Prelude.{String, nat_eq, refl, some, string_eq}
use g_io_t_edge_gateway.Shared.Telemetry.{Codec, CodecLaws, TelemetryReading}

-- A UUID is its text, a time a text, and a JSON value the text of it.
abbrev pub plain : Codec
plain = record {
  Uuid = String;
  Time = String;
  Json = String;
  show_uuid = λ u. u;
  parse_uuid = λ s. some s;
  isoformat = λ t. t;
  fromisoformat = λ s. some s;
  dump = λ field j. j;
  load = λ field s. some s;
}

abbrev pub plain_laws : CodecLaws plain
plain_laws = record {
  parse_show = λ u. refl;
  fromisoformat_isoformat = λ t. refl;
  load_dump = λ field j. refl;
}

abbrev pub sample : TelemetryReading plain
sample = record {
  device_id = "d1";
  device_type = "thermostat";
  timestamp = "2026-01-01T00:00:00";
  payload = "{t: 21}";
  metadata = "{}";
}
