-- ===== src/Persistence/Worker.antt =====
-- workers/stream_to_postgres.py: the loop of the worker, one turn at a time. What Redis and
-- PostgreSQL answer in a turn is its argument.
pub mod Sound
pub mod Delivery
pub mod Stuck
pub mod Ingested
use g_io_t_edge_gateway.Shared.Outcome.{Outcome, down, fine, lost}
use g_io_t_edge_gateway.Prelude.{
  Bool, List, Option, String, [], false, if◌then◌else◌, is_empty, leb, ltb, nat_eq, none, some,
  string_eq, true, ℕ, ◌&&◌, ◌++◌, ◌-◌, ◌||◌, ◌∷◌,
}
use g_io_t_edge_gateway.Dict.{Dict}
use g_io_t_edge_gateway.Shared.Telemetry.{Codec, TelemetryReading, from_stream_dict}
use g_io_t_edge_gateway.Persistence.BatchWriter.{
  BatchWriter, Table, TelemetryRecord, accumulate, flush, size,
}

-- A stream entry: its id and its fields.
abbrev pub Entry : Type 0
Entry = String × Dict String String

pub record Settings : Type 0 where
  pub batch_size : ℕ
  -- Microseconds, as all times here.
  pub flush_interval : ℕ

pub record Turn : Type 0 where
  -- XREADGROUP; `none` where it raises.
  pub entries : Option (List Entry)
  -- XACK of an entry that cannot be parsed, by its id.
  pub bad_acks : String → Outcome
  -- `time.monotonic()` before the test, and after the flush.
  pub now : ℕ
  pub later : ℕ
  pub session : Outcome
  pub ack : Outcome

-- `uuid4` names the random id that the record of an entry gets.
module _ (c : Codec) (uuid4 : String → String) where
  -- The worker's variables, and the servers: the table, the entries that the group has delivered
  -- and the ids that it has acknowledged.
  pub record World : Type 0 where
    pub batch_writer : BatchWriter c
    pub pending_ids : List String
    pub last_flush_time : ℕ
    pub table : Table c
    pub delivered : List Entry
    pub acked : List String

  unfoldable pub telemetry_to_record : String → TelemetryReading c → TelemetryRecord c
  telemetry_to_record id reading = record {
    id = uuid4 id;
    device_id = reading.device_id;
    device_type = reading.device_type;
    timestamp = reading.timestamp;
    payload = reading.payload;
    metadata = reading.metadata;
  }

  abbrev pub buffered : World → String → TelemetryReading c → World
  buffered w id reading = record w {
    batch_writer = accumulate c w.batch_writer (telemetry_to_record id reading);
    pending_ids = w.pending_ids ++ id ∷ [];
  }

  abbrev pub acknowledged : World → List String → World
  acknowledged w done = record w { acked = w.acked ++ done }

  -- An XACK that raises leaves the inner loop, whether it took effect or not.
  abbrev pub discard : Outcome → World → String → World × Bool
  discard fine w id = (acknowledged w (id ∷ []), true)
  discard lost w id = (acknowledged w (id ∷ []), false)
  discard down w id = (w, false)

  abbrev pub keep_or_discard :
      (String → Outcome) → World → String → Option (TelemetryReading c) → World × Bool
  keep_or_discard bad_acks w id (some reading) = (buffered w id reading, true)
  keep_or_discard bad_acks w id none = discard (bad_acks id) w id

  -- The body of the inner loop; it answers whether the loop goes on.
  unfoldable pub process_entry : (String → Outcome) → World → Entry → World × Bool
  process_entry bad_acks w (id, fields) = keep_or_discard bad_acks w id (from_stream_dict c fields)

  unfoldable pub process_entries : (String → Outcome) → World → List Entry → World × Bool
  process_entries bad_acks w [] = (w, true)
  process_entries bad_acks w (entry ∷ entries) =
      let (w', goes_on) = process_entry bad_acks w entry in
      if goes_on then process_entries bad_acks w' entries else (w', false)

  abbrev pub is_due : Settings → ℕ → World → Bool
  is_due settings now w =
      leb settings.batch_size (size c w.batch_writer)
      || (ltb 0 (size c w.batch_writer) && leb settings.flush_interval (now - w.last_flush_time))

  -- XACK of all pending ids after a flush. `later` is the new time of the last flush, which the
  -- shutdown does not set.
  unfoldable pub ack_pending : Outcome → ℕ → World → World
  ack_pending fine later w = record w {
    acked = w.acked ++ w.pending_ids;
    pending_ids = [];
    last_flush_time = later;
  }
  ack_pending lost later w = acknowledged w w.pending_ids
  ack_pending down later w = w

  -- A flush that raises is not followed by the XACK.
  abbrev pub after_flush : Outcome → ℕ → World → Table c × BatchWriter c × Option ℕ → World
  after_flush ack later w (table, writer, none) = record w { table = table; batch_writer = writer }
  after_flush ack later w (table, writer, some count) =
      if is_empty w.pending_ids
      then record w { table = table; batch_writer = writer; last_flush_time = later }
      else ack_pending ack later (record w { table = table; batch_writer = writer })

  unfoldable pub flush_and_ack : Outcome → Outcome → ℕ → World → World
  flush_and_ack session ack later w =
      after_flush ack later w (flush c session w.table w.batch_writer)

  -- The rest of a turn after the inner loop.
  abbrev pub end_turn : Settings → Turn → World × Bool → World
  end_turn settings t (w, false) = w
  end_turn settings t (w, true) =
      if is_due settings t.now w then flush_and_ack t.session t.ack t.later w else w

  -- The body of the `while` loop.
  unfoldable pub turn : Settings → Turn → World → World
  turn settings t w = elim t.entries [
    | none ↦ w
    | some entries ↦
        end_turn settings t
          (process_entries t.bad_acks (record w { delivered = w.delivered ++ entries }) entries)
  ]

  -- After the loop.
  unfoldable pub shutdown : Outcome → Outcome → World → World
  shutdown session ack w =
      if ltb 0 (size c w.batch_writer) then flush_and_ack session ack w.last_flush_time w else w

  pub data Step (settings : Settings) (w : World) : World → Type 0 where
    turned : (t : Turn) → Step settings w (turn settings t w)
    stopped : (session ack : Outcome) → Step settings w (shutdown session ack w)

  pub data Reach (settings : Settings) (w : World) : World → Type 0 where
    here : Reach settings w w
    next : {u v : World} → Reach settings w u → Step settings u v → Reach settings w v
