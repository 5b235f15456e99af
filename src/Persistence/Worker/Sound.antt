-- ===== src/Persistence/Worker/Sound.antt =====
-- stream_to_postgres.py: what is known of pending and acknowledged entries, through the inner loop.
use mathlib.Core.List.{append-nil, append_assoc}
use g_io_t_edge_gateway.Shared.Outcome.{Outcome, down, fine, lost}
use g_io_t_edge_gateway.Prelude.{
  All, All-append, All-map, Any, Any-append_left, Any-append_right, Bool-cases, List, Option,
  Option-cases, String, Within, [], arith, contains, inl, inr, nat_eq, none, refl, some, string_eq,
  subst, sym, ◌++◌, ◌∙◌, ◌∷◌, ◌≡◌, ◌⊎◌,
}
use g_io_t_edge_gateway.Dict.{Dict}
use g_io_t_edge_gateway.Shared.Telemetry.{Codec, TelemetryReading, from_stream_dict}
use g_io_t_edge_gateway.Persistence.BatchWriter.{Table, accumulate, ids, insert_rows}
use g_io_t_edge_gateway.Persistence.Worker.{
  Entry, World, acknowledged, buffered, discard, keep_or_discard, process_entries, process_entry,
  telemetry_to_record,
}

module _ (c : Codec) (uuid4 : String → String) where
  -- The record of the entry `id`, one of the delivered, is among the rows.
  pub record Stored (delivered : List Entry) (rows : Table c) (id : String) : Type 0 where
    pub fields : Dict String String
    pub reading : TelemetryReading c
    pub is_delivered : Any (λ e. (id, fields) ≡ e) delivered
    pub parsed : from_stream_dict c fields ≡ some reading
    pub stored : Any (λ row. telemetry_to_record c uuid4 id reading ≡ row) rows

  -- The entry `id`, one of the delivered, cannot be parsed.
  pub record Malformed (delivered : List Entry) (id : String) : Type 0 where
    pub fields : Dict String String
    pub is_delivered : Any (λ e. (id, fields) ≡ e) delivered
    pub unparsed : from_stream_dict c fields ≡ none

  abbrev pub Settled : List Entry → Table c → String → Type 0
  Settled delivered table id = Stored delivered table id ⊎ Malformed delivered id

  pub Stored-Within :
      {delivered delivered' : List Entry} {rows rows' : Table c}
      → Within delivered delivered'
      → Within rows rows'
      → (id : String) → Stored delivered rows id
      → Stored delivered' rows' id
  Stored-Within more new id s = record {
    fields = s.fields;
    reading = s.reading;
    is_delivered = more _ s.is_delivered;
    parsed = s.parsed;
    stored = new _ s.stored;
  }

  pub Settled-Within :
      {delivered delivered' : List Entry} {table table' : Table c}
      → Within delivered delivered'
      → Within table table'
      → (id : String) → Settled delivered table id
      → Settled delivered' table' id
  Settled-Within more new id (inl s) = inl (Stored-Within more new id s)
  Settled-Within more new id (inr m) =
      inr
        (record { fields = m.fields; is_delivered = more _ m.is_delivered; unparsed = m.unparsed })

  -- A pending entry is in the table or in the buffer, an acknowledged one in the table.
  pub record IsSound (w : World c uuid4) : Type 0 where
    pub pending : All (Stored w.delivered (w.table ++ w.batch_writer.buffer)) w.pending_ids
    pub settled : All (Settled w.delivered w.table) w.acked

  pub insert_rows-append :
      (table rows : Table c) {table' : Table c}
      → insert_rows c table rows ≡ some table'
      → table ++ rows ≡ table'
  unfolding insert_rows
  insert_rows-append table [] e = append-nil table ∙ cc
  insert_rows-append table (row ∷ rows) e = elim (Bool-cases (contains row.id (ids c table))) [
    | inl taken ↦ ground (arith, taken)
    | inr free ↦
        sym (append_assoc table (row ∷ []) rows)
        ∙ insert_rows-append (table ++ row ∷ []) rows (ground (arith, free))
  ]

  pub acknowledged-IsSound :
      (w : World c uuid4) (done : List String)
      → All (Settled w.delivered w.table) done
      → IsSound w
      → IsSound (acknowledged c uuid4 w done)
  acknowledged-IsSound w done new s = record {
    pending = s.pending;
    settled = All-append _ w.acked done s.settled new;
  }

  discard-IsSound :
      (outcome : Outcome) (w : World c uuid4) (id : String)
      → Malformed w.delivered id
      → IsSound w
      → IsSound (discard c uuid4 outcome w id).0
  discard-IsSound fine w id bad s = acknowledged-IsSound w (id ∷ []) (inr bad, tt) s
  discard-IsSound lost w id bad s = acknowledged-IsSound w (id ∷ []) (inr bad, tt) s
  discard-IsSound down w id bad s = s

  buffered-IsSound :
      (w : World c uuid4) (id : String) (reading : TelemetryReading c) (fields : Dict String String)
      → Any (λ e. (id, fields) ≡ e) w.delivered
      → from_stream_dict c fields ≡ some reading
      → IsSound w
      → IsSound (buffered c uuid4 w id reading)
  unfolding accumulate
  buffered-IsSound w id reading fields inside parsed s =
      let row = telemetry_to_record c uuid4 id reading in
      let old = w.table ++ w.batch_writer.buffer in
      let join : Within (old ++ row ∷ []) (w.table ++ (w.batch_writer.buffer ++ row ∷ [])) =
        λ P i. subst (Any P) (append_assoc w.table w.batch_writer.buffer (row ∷ [])) i in
      record {
        pending =
            All-append _ w.pending_ids (id ∷ [])
              (All-map
                (Stored-Within (λ P i. i) (λ P i. join P (Any-append_left P old (row ∷ []) i)))
                w.pending_ids s.pending)
              (
                record {
                  fields = fields;
                  reading = reading;
                  is_delivered = inside;
                  parsed = parsed;
                  stored = join _ (Any-append_right _ old (row ∷ []) (inl refl));
                },
                tt,
              );
        settled = s.settled;
      }

  keep_or_discard-IsSound :
      (bad_acks : String → Outcome) (w : World c uuid4) (id : String) (fields : Dict String String)
      (o : Option (TelemetryReading c))
      → from_stream_dict c fields ≡ o
      → Any (λ e. (id, fields) ≡ e) w.delivered
      → IsSound w
      → IsSound (keep_or_discard c uuid4 bad_acks w id o).0
  keep_or_discard-IsSound bad_acks w id fields (some reading) e inside s =
      buffered-IsSound w id reading fields inside e s
  keep_or_discard-IsSound bad_acks w id fields none e inside s =
      discard-IsSound (bad_acks id) w id
        (record { fields = fields; is_delivered = inside; unparsed = e }) s

  discard-delivered :
      (outcome : Outcome) (w : World c uuid4) (id : String)
      → (discard c uuid4 outcome w id).0.delivered ≡ w.delivered
  discard-delivered fine w id = refl
  discard-delivered _ w id = refl

  process_entry-delivered :
      (bad_acks : String → Outcome) (w : World c uuid4) (e : Entry)
      → (process_entry c uuid4 bad_acks w e).0.delivered ≡ w.delivered
  unfolding process_entry
  process_entry-delivered bad_acks w (id, fields) =
      elim (Option-cases (from_stream_dict c fields)) [
        | inr (reading, e) ↦ rw e refl
        | inl e ↦ rw e (discard-delivered (bad_acks id) w id)
      ]

  -- The entries that are still to be processed have been delivered.
  pub process_entries-IsSound :
      (bad_acks : String → Outcome) (w : World c uuid4) (entries : List Entry)
      → Within entries w.delivered
      → IsSound w
      → IsSound (process_entries c uuid4 bad_acks w entries).0
  unfolding process_entries process_entry
  process_entries-IsSound bad_acks w [] inside s = s
  process_entries-IsSound bad_acks w ((id, fields) ∷ entries) inside s =
      let step = process_entry c uuid4 bad_acks w (id, fields) in
      let s' : IsSound step.0 =
        keep_or_discard-IsSound bad_acks w id fields (from_stream_dict c fields) refl
          (inside _ (inl refl)) s in
      let inside' : Within entries step.0.delivered = λ P i.
        subst (Any P) (sym (process_entry-delivered bad_acks w (id, fields))) (inside P (inr i)) in
      elim (Bool-cases step.1) [
        | inl goes_on ↦ rw goes_on (process_entries-IsSound bad_acks step.0 entries inside' s')
        | inr stops ↦ rw stops s'
      ]
