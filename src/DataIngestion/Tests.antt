-- ===== src/DataIngestion/Tests.antt =====
-- The ingestion service at concrete inputs.
use g_io_t_edge_gateway.Prelude.{
  List, Option, String, [], arith, contains, drop, if◌then◌else◌, keep, length, map, nat_eq, none,
  refl, some, string_eq, true, ℕ, ◌+◌, ◌-◌, ◌==◌, ◌∷◌, ◌≡◌, ◌≤◌, ◌⊎◌,
}
use g_io_t_edge_gateway.Dict.{Dict, insert, lookup}
use g_io_t_edge_gateway.Shared.Outcome.{Outcome, fine, lost}
use g_io_t_edge_gateway.Shared.Telemetry.{TelemetryReading, from_stream_dict}
use g_io_t_edge_gateway.Shared.Tests.{plain, plain_laws, sample}
use g_io_t_edge_gateway.DataIngestion.StreamMonitor.{StreamMonitor, is_fresh}
use g_io_t_edge_gateway.DataIngestion.Ingest.{
  Bodies, Ingestion, Message, handle_messages, has, with_defaults,
}
use g_io_t_edge_gateway.DataIngestion.Subscriber.{MqttSubscriber, delays}
use g_io_t_edge_gateway.DataIngestion.Delivery.{TrimLaw, accepted, consumers_read}

-- A JSON value is its text, and a body is valid if its device is "d1".
abbrev valid_if : Option String → Option (TelemetryReading plain)
valid_if none = none
valid_if (some id) = if id == "d1" then some sample else none

-- Trims as soon as there is one entry too many.
unfoldable pub trim_to : ℕ → List (Dict String String) → List (Dict String String)
trim_to limit xs = drop (length xs - limit) xs

abbrev bodies : Bodies plain
bodies = record {
  Value = String;
  text = λ s. s;
  object = λ d. "{}";
  validate = λ d. valid_if (lookup "device_id" d);
  stream_max_len = 1;
  trim = trim_to;
}

abbrev message : String → Option (Dict String String) → Message plain bodies
message id body = record {
  topic_parts = "devices" ∷ id ∷ "telemetry" ∷ [];
  body = body;
  utcnow = "2026-01-01T00:00:00";
  now = 70000000;
}

abbrev monitor : StreamMonitor
monitor = record {
  last_seen =
      ("d0", record { device_type = "thermostat"; at = 1 })
      ∷ ("d9", record { device_type = "camera"; at = 69000000 })
      ∷ [];
  known_types = "thermostat" ∷ [];
  gauge = [];
}

abbrev idle : Ingestion plain bodies
idle = record { monitor = monitor; received = 0; published = 0; stream = []; added = [] }

abbrev messages : List (Message plain bodies × Outcome)
messages =
    (message "d1" (some (("t", "21") ∷ [])), fine)
    ∷ (message "d2" (some []), fine)
    ∷ (message "d1" none, fine)
    ∷ (message "d1" (some []), lost)
    ∷ []

trim_to_lem : TrimLaw plain bodies
unfolding trim_to
trim_to_lem limit xs = (length xs - limit, refl, ground arith)

consumers_read_example :
    (gone : ℕ) × (map (from_stream_dict plain) (handle_messages plain bodies messages idle).stream
      ≡ map (λ r. some r) (drop gone (accepted plain bodies messages)))
    × ((gone ≡ 0) ⊎ (1 + gone ≤ length (accepted plain bodies messages)))
consumers_read_example = consumers_read plain bodies plain_laws trim_to_lem messages idle refl refl

-- Two of the four messages reach the stream.
two_accepted : accepted plain bodies messages ≡ sample ∷ sample ∷ []
unfolding with_defaults lookup insert keep contains
two_accepted = refl

abbrev bare : Dict String String
bare = ("t", "21") ∷ []

has_t : has plain bodies "t" bare ≡ true
unfolding lookup
has_t = refl

-- The thermostat was seen too long ago.
no_thermostat :
    (keep (is_fresh 70000000) monitor.last_seen)
    ≡ ("d9", record { device_type = "camera"; at = 69000000 }) ∷ []
unfolding keep
no_thermostat = refl

known_thermostat : contains "thermostat" monitor.known_types ≡ true
unfolding contains
known_thermostat = refl

abbrev subscriber : MqttSubscriber
subscriber = record { running = true; reconnect_delay = 1 }

eight_delays : delays 8 1 ≡ 1 ∷ 2 ∷ 4 ∷ 8 ∷ 16 ∷ 32 ∷ 60 ∷ 60 ∷ []
eight_delays = refl
