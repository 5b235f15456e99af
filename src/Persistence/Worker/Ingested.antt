-- ===== src/Persistence/Worker/Ingested.antt =====
-- From ingestion_service.py to stream_to_postgres.py: what ingestion puts on the stream reaches the
-- table.
use g_io_t_edge_gateway.Prelude.{
  All, All-map, Any, Any-All, List, String, [], arith, inl, inr, map, nat_eq, none, string_eq, ℕ,
  ◌∷◌, ◌≡◌, ◌≢◌,
}
use g_io_t_edge_gateway.Dict.{Dict}
use g_io_t_edge_gateway.Shared.Outcome.{Outcome}
use g_io_t_edge_gateway.Shared.Telemetry.{
  Codec, CodecLaws, TelemetryReading, from_stream_dict, from_stream_dict-to_stream_dict,
  to_stream_dict,
}
use g_io_t_edge_gateway.DataIngestion.Ingest.{Bodies, Ingestion, Message, handle_messages}
use g_io_t_edge_gateway.DataIngestion.Delivery.{accepted, handle_messages-added}
use g_io_t_edge_gateway.Persistence.BatchWriter.{Table}
use g_io_t_edge_gateway.Persistence.Worker.{Reach, Settings, World}
use g_io_t_edge_gateway.Persistence.Worker.Sound.{Settled, Stored}
use g_io_t_edge_gateway.Persistence.Worker.Delivery.{acked_is_Settled, start}

module _ (c : Codec) (uuid4 : String → String) (b : Bodies c) where
  abbrev Parses : Dict String String → Type 0
  Parses fields = from_stream_dict c fields ≢ none

  added-Parses :
      CodecLaws c → (rs : List (TelemetryReading c)) → All Parses (map (to_stream_dict c) rs)
  added-Parses laws [] = tt
  added-Parses laws (r ∷ rs) =
      (λ e. ground (arith, e, from_stream_dict-to_stream_dict c laws r), added-Parses laws rs)

  -- If the stream's entries are those that ingestion added, then every entry that the worker has
  -- acknowledged is in the table as its record, whatever Redis and PostgreSQL answer to either
  -- service: no reading is dropped as malformed.
  pub ingested_is_Stored :
      {settings : Settings}
      → CodecLaws c
      → (ms : List (Message c b × Outcome)) (i : Ingestion c b) (table : Table c) (now : ℕ)
        {w : World c uuid4}
      → i.added ≡ []
      → Reach c uuid4 settings (start c uuid4 table now) w
      → All (λ e. Any (λ x. e.1 ≡ x) (handle_messages c b ms i).added) w.delivered
      → All (Stored c uuid4 w.delivered w.table) w.acked
  ingested_is_Stored laws ms i table now {w} nothing r from_stream =
      All-map stored w.acked (acked_is_Settled c uuid4 table now r)
    where
      parse : All Parses (handle_messages c b ms i).added
      parse = rw (handle_messages-added c b ms i) (rw nothing (added-Parses laws (accepted c b ms)))

      stored :
          (id : String)
          → Settled c uuid4 w.delivered w.table id
          → Stored c uuid4 w.delivered w.table id
      stored id (inl s) = s
      stored id (inr m) = absurd (
          Any-All Parses (handle_messages c b ms i).added
            (Any-All (λ e. Any (λ x. e.1 ≡ x) (handle_messages c b ms i).added) w.delivered
              m.is_delivered from_stream)
            parse m.unparsed)
