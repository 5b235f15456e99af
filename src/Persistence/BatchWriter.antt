-- ===== src/Persistence/BatchWriter.antt =====
-- services/batch_writer.py and db/models.py. A PostgreSQL table is the list of its rows; what
-- PostgreSQL answers to a transaction is an argument.
use g_io_t_edge_gateway.Shared.Outcome.{Outcome, down, fine, lost}
use g_io_t_edge_gateway.Prelude.{
  List, Option, String, [], contains, if◌then◌else◌, is_empty, length, map, nat_eq, none, some,
  string_eq, ℕ, ◌++◌, ◌∷◌,
}
use g_io_t_edge_gateway.Shared.Telemetry.{Codec}

module _ (c : Codec) where
  -- The id is text here; a row's `ingested_at` is left out.
  pub record TelemetryRecord : Type 0 where
    pub id : String
    pub device_id : c.Uuid
    pub device_type : String
    pub timestamp : c.Time
    pub payload : c.Json
    pub metadata : c.Json

  abbrev pub Table : Type 0
  Table = List TelemetryRecord

  abbrev pub ids : Table → List String
  ids = map (λ row. row.id)

  -- INSERT of several rows under the primary key `id`: all of them, or none where a key is taken.
  unfoldable pub insert_rows : Table → List TelemetryRecord → Option Table
  insert_rows table [] = some table
  insert_rows table (row ∷ rows) =
      let rest = insert_rows (table ++ row ∷ []) rows in
      if contains row.id (ids table) then none else rest

  pub record BatchWriter : Type 0 where
    pub buffer : List TelemetryRecord

  abbrev pub size : BatchWriter → ℕ
  size w = length w.buffer

  unfoldable pub accumulate : BatchWriter → TelemetryRecord → BatchWriter
  accumulate w row = record w { buffer = w.buffer ++ row ∷ [] }

  -- The end of `flush` after the INSERT: COMMIT, and then `clear`.
  unfoldable pub commit :
      Outcome → Table → BatchWriter → Option Table → Table × BatchWriter × Option ℕ
  commit outcome table w none = (table, w, none)
  commit fine table w (some table') = (table', record w { buffer = [] }, some (size w))
  commit lost table w (some table') = (table', w, none)
  commit down table w (some table') = (table, w, none)

  -- The table, the writer and the count, which is `none` where `flush` raises.
  unfoldable pub flush : Outcome → Table → BatchWriter → Table × BatchWriter × Option ℕ
  unfolding commit
  flush outcome table w =
      if is_empty w.buffer
      then (table, w, some 0)
      else commit outcome table w (insert_rows table w.buffer)
