-- ===== src/Persistence/Tests.antt =====
-- The worker of stream_to_postgres.py at concrete inputs.
use g_io_t_edge_gateway.Shared.Outcome.{Outcome, fine, lost}
use g_io_t_edge_gateway.Prelude.{
  All, Any, List, String, [], contains, inl, nat_eq, refl, some, string_eq, ◌∷◌, ◌≡◌,
}
use g_io_t_edge_gateway.Dict.{lookup}
use g_io_t_edge_gateway.Shared.Telemetry.{from_stream_dict, to_stream_dict}
use g_io_t_edge_gateway.Shared.Tests.{plain, plain_laws, sample}
use g_io_t_edge_gateway.DataIngestion.Ingest.{
  Bodies, Ingestion, Message, handle_message, handle_messages, process,
}
use g_io_t_edge_gateway.Persistence.Worker.Ingested.{ingested_is_Stored}
use g_io_t_edge_gateway.Persistence.BatchWriter.{
  TelemetryRecord, accumulate, commit, flush, insert_rows,
}
use g_io_t_edge_gateway.Persistence.Worker.{
  Settings, Turn, World, ack_pending, flush_and_ack, here, next, process_entries, process_entry,
  turn, turned,
}
use g_io_t_edge_gateway.Persistence.Worker.Sound.{Settled, Stored}
use g_io_t_edge_gateway.Persistence.Worker.Delivery.{acked_is_Settled, start}
use g_io_t_edge_gateway.Persistence.Worker.Stuck.{lost_commit_blocks}

-- The random id of an entry's record; here it is the entry's id.
abbrev same_id : String → String
same_id id = id

abbrev settings : Settings
settings = record { batch_size = 1; flush_interval = 1000000 }

abbrev good_turn : Turn
good_turn = record {
  entries = some (("1-0", to_stream_dict plain sample) ∷ ("2-0", []) ∷ []);
  bad_acks = λ id. fine;
  now = 5;
  later = 6;
  session = fine;
  ack = fine;
}

abbrev after_good : World plain same_id
after_good = turn plain same_id settings good_turn (start plain same_id [] 0)

-- The good entry is in the table and the malformed one is dropped; both are acknowledged.
good_turn_acks : after_good.acked ≡ "2-0" ∷ "1-0" ∷ []
unfolding turn process_entries process_entry from_stream_dict lookup flush_and_ack flush commit
    insert_rows ack_pending accumulate to_stream_dict contains
good_turn_acks = refl

acked_is_Settled_example :
    All (Settled plain same_id after_good.delivered after_good.table) after_good.acked
acked_is_Settled_example = acked_is_Settled plain same_id [] 0 (next here (turned good_turn))

abbrev row : TelemetryRecord plain
row = record {
  id = "1-0";
  device_id = "d1";
  device_type = "thermostat";
  timestamp = "2026-01-01T00:00:00";
  payload = "{t: 21}";
  metadata = "{}";
}

abbrev full_world : World plain same_id
full_world = record {
  batch_writer = record { buffer = row ∷ [] };
  pending_ids = "1-0" ∷ [];
  last_flush_time = 0;
  table = [];
  delivered = ("1-0", to_stream_dict plain sample) ∷ [];
  acked = [];
}

stored_row : insert_rows plain [] (row ∷ []) ≡ some (row ∷ [])
unfolding insert_rows contains
stored_row = refl

abbrev blocked : World plain same_id
blocked = turn plain same_id settings good_turn (flush_and_ack plain same_id lost fine 3 full_world)

lost_commit_blocks_example : blocked.table ≡ row ∷ []
lost_commit_blocks_example =
    lost_commit_blocks plain same_id full_world fine 3 row [] (row ∷ []) refl stored_row
      (next here (turned good_turn))

-- A body that is always the sample.
abbrev bodies : Bodies plain
bodies = record {
  Value = String;
  text = λ s. s;
  object = λ d. "{}";
  validate = λ d. some sample;
  stream_max_len = 100000;
  trim = λ limit xs. xs;
}

abbrev messages : List (Message plain bodies × Outcome)
messages = (record { topic_parts = []; body = some []; utcnow = "now"; now = 1 }, fine) ∷ []

abbrev idle : Ingestion plain bodies
idle = record {
  monitor = record { last_seen = []; known_types = []; gauge = [] };
  received = 0;
  published = 0;
  stream = [];
  added = [];
}

abbrev one_entry : Turn
one_entry = record good_turn { entries = some (("1-0", to_stream_dict plain sample) ∷ []) }

abbrev stored_one : World plain same_id
stored_one = turn plain same_id settings one_entry (start plain same_id [] 0)

from_stream :
    All
      (λ e. Any (λ x. e.1 ≡ x) (handle_messages plain bodies messages idle).added)
      stored_one.delivered
unfolding turn process_entries process_entry from_stream_dict lookup flush_and_ack flush commit
    insert_rows ack_pending accumulate to_stream_dict contains handle_messages handle_message
    process
from_stream = (inl refl, tt)

ingested_is_Stored_example :
    All (Stored plain same_id stored_one.delivered stored_one.table) stored_one.acked
ingested_is_Stored_example =
    ingested_is_Stored plain same_id bodies plain_laws messages idle [] 0 refl
      (next here (turned one_entry)) from_stream
