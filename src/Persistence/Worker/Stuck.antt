-- ===== src/Persistence/Worker/Stuck.antt =====
-- stream_to_postgres.py: a lost answer to a COMMIT stops the worker for good.
use g_io_t_edge_gateway.Shared.Outcome.{Outcome, down, fine, lost}
use g_io_t_edge_gateway.Prelude.{
  Any, Any-append_left, Any-map, Bool, Bool-cases, List, Option, Option-cases, String, [], ap,
  arith, contains, false, inl, inr, is_empty, ltb, nat_eq, none, refl, some, string_eq, subst, sym,
  true, ℕ, ◌++◌, ◌∙◌, ◌∷◌, ◌≡◌,
}
use g_io_t_edge_gateway.Shared.Telemetry.{Codec, TelemetryReading, from_stream_dict}
use g_io_t_edge_gateway.Persistence.BatchWriter.{
  BatchWriter, Table, TelemetryRecord, accumulate, commit, flush, ids, insert_rows, size,
}
use g_io_t_edge_gateway.Persistence.Worker.{
  Entry, Reach, Settings, Step, Turn, World, discard, end_turn, flush_and_ack, here, is_due,
  keep_or_discard, next, process_entries, process_entry, shutdown, stopped, telemetry_to_record,
  turn, turned,
}
use g_io_t_edge_gateway.Persistence.Worker.Sound.{insert_rows-append}

module _ (c : Codec) where
  -- A row of the buffer has an id that the table has.
  abbrev Clashes : Table c → List (TelemetryRecord c) → Type 0
  Clashes table rows = Any (λ row. contains row.id (ids c table) ≡ true) rows

  contains-ids-append :
      (a : String) (table rows : Table c)
      → contains a (ids c table) ≡ true
      → contains a (ids c (table ++ rows)) ≡ true
  unfolding contains
  contains-ids-append a [] rows h = cc
  contains-ids-append a (row ∷ table) rows h = ground (arith, contains-ids-append a table rows)

  contains-ids_self :
      (table rows : Table c) (row : TelemetryRecord c)
      → contains row.id (ids c (table ++ row ∷ rows)) ≡ true
  unfolding contains
  contains-ids_self [] rows row = ground (arith, string_eq.beq_iff row.id row.id)
  contains-ids_self (x ∷ table) rows row = ground (arith, contains-ids_self table rows row)

  insert_rows-Clashes :
      (table rows : Table c) → Clashes table rows → insert_rows c table rows ≡ none
  unfolding insert_rows
  insert_rows-Clashes table [] h = absurd h
  insert_rows-Clashes table (row ∷ rows) (inl taken) = rw taken refl
  insert_rows-Clashes table (row ∷ rows) (inr h) = ground (
    arith,
    insert_rows-Clashes (table ++ row ∷ []) rows
        (Any-map (λ x. contains-ids-append x.id table (row ∷ [])) rows h),
  )

  flush-Clashes :
      (outcome : Outcome) (table : Table c) (w : BatchWriter c)
      → Clashes table w.buffer
      → flush c outcome table w ≡ (table, w, none)
  unfolding flush commit
  flush-Clashes outcome table w h =
      ground (arith, insert_rows-Clashes table w.buffer h, nonempty w.buffer h)
    where
      nonempty : (rows : Table c) → Clashes table rows → is_empty rows ≡ false
      nonempty [] i = absurd i
      nonempty (row ∷ rows) i = refl

  flush-lost :
      (table table' : Table c) (w : BatchWriter c) (row : TelemetryRecord c) (rows : Table c)
      → w.buffer ≡ row ∷ rows
      → insert_rows c table w.buffer ≡ some table'
      → flush c lost table w ≡ (table', w, none)
  unfolding flush commit
  flush-lost table table' w row rows full stored = ground (arith, full, stored)

module _ (c : Codec) (uuid4 : String → String) where
  -- The table is `table`, and the buffer clashes with it.
  pub record IsStuck (table : Table c) (w : World c uuid4) : Type 0 where
    pub same : w.table ≡ table
    pub clash : Clashes c w.table w.batch_writer.buffer

  discard-IsStuck :
      (table : Table c) (outcome : Outcome) (w : World c uuid4) (id : String)
      → IsStuck table w
      → IsStuck table (discard c uuid4 outcome w id).0
  discard-IsStuck table fine w id s = record { same = s.same; clash = s.clash }
  discard-IsStuck table lost w id s = record { same = s.same; clash = s.clash }
  discard-IsStuck table down w id s = s

  keep_or_discard-IsStuck :
      (table : Table c) (bad_acks : String → Outcome) (w : World c uuid4) (id : String)
      (o : Option (TelemetryReading c))
      → IsStuck table w
      → IsStuck table (keep_or_discard c uuid4 bad_acks w id o).0
  unfolding accumulate
  keep_or_discard-IsStuck table bad_acks w id (some reading) s = record {
    same = s.same;
    clash =
        Any-append_left _ w.batch_writer.buffer (telemetry_to_record c uuid4 id reading ∷ [])
          s.clash;
  }
  keep_or_discard-IsStuck table bad_acks w id none s = discard-IsStuck table (bad_acks id) w id s

  process_entries-IsStuck :
      (table : Table c) (bad_acks : String → Outcome) (w : World c uuid4) (entries : List Entry)
      → IsStuck table w
      → IsStuck table (process_entries c uuid4 bad_acks w entries).0
  unfolding process_entries process_entry
  process_entries-IsStuck table bad_acks w [] s = s
  process_entries-IsStuck table bad_acks w ((id, fields) ∷ entries) s =
      let step = process_entry c uuid4 bad_acks w (id, fields) in
      let s' : IsStuck table step.0 =
        keep_or_discard-IsStuck table bad_acks w id (from_stream_dict c fields) s in
      elim (Bool-cases step.1) [
        | inl goes_on ↦ rw goes_on (process_entries-IsStuck table bad_acks step.0 entries s')
        | inr stops ↦ rw stops s'
      ]

  flush_and_ack-IsStuck :
      (table : Table c) (session ack : Outcome) (later : ℕ) (w : World c uuid4)
      → IsStuck table w
      → IsStuck table (flush_and_ack c uuid4 session ack later w)
  unfolding flush_and_ack
  flush_and_ack-IsStuck table session ack later w s =
      rw (flush-Clashes c session w.table w.batch_writer s.clash)
        (record { same = s.same; clash = s.clash })

  end_turn-IsStuck :
      (table : Table c) (settings : Settings) (t : Turn) (r : World c uuid4 × Bool)
      → IsStuck table r.0
      → IsStuck table (end_turn c uuid4 settings t r)
  end_turn-IsStuck table settings t (w, false) s = s
  end_turn-IsStuck table settings t (w, true) s =
      elim (Bool-cases (is_due c uuid4 settings t.now w)) [
        | inl due ↦ rw due (flush_and_ack-IsStuck table t.session t.ack t.later w s)
        | inr early ↦ rw early s
      ]

  turn-IsStuck :
      (table : Table c) (settings : Settings) (t : Turn) (w : World c uuid4)
      → IsStuck table w
      → IsStuck table (turn c uuid4 settings t w)
  unfolding turn
  turn-IsStuck table settings t w s = elim (Option-cases t.entries) [
    | inl e ↦ rw e s
    | inr (entries, e) ↦
        let w' : World c uuid4 = record w { delivered = w.delivered ++ entries } in
        rw e (
          end_turn-IsStuck table settings t (process_entries c uuid4 t.bad_acks w' entries) (
            process_entries-IsStuck table t.bad_acks w' entries
              (record { same = s.same; clash = s.clash })))
  ]

  Step-IsStuck :
      {table : Table c} {settings : Settings} {w v : World c uuid4}
      → Step c uuid4 settings w v
      → IsStuck table w
      → IsStuck table v
  unfolding shutdown
  Step-IsStuck {table} {settings} {w} (turned t) s = turn-IsStuck table settings t w s
  Step-IsStuck {table} {settings} {w} (stopped session ack) s =
      elim (Bool-cases (ltb 0 (size c w.batch_writer))) [
        | inl e ↦ rw e (flush_and_ack-IsStuck table session ack w.last_flush_time w s)
        | inr e ↦ rw e s
      ]

  Reach-IsStuck :
      {table : Table c} {settings : Settings} {w v : World c uuid4}
      → IsStuck table w
      → Reach c uuid4 settings w v
      → IsStuck table v
  Reach-IsStuck s here = s
  Reach-IsStuck s (next r step) = Step-IsStuck step (Reach-IsStuck s r)

  lost-IsStuck :
      (w : World c uuid4) (ack : Outcome) (later : ℕ) (row : TelemetryRecord c)
      (rows table : Table c)
      → w.batch_writer.buffer ≡ row ∷ rows
      → insert_rows c w.table w.batch_writer.buffer ≡ some table
      → IsStuck table (flush_and_ack c uuid4 lost ack later w)
  unfolding flush_and_ack
  lost-IsStuck w ack later row rows table full stored =
      let joined : table ≡ w.table ++ row ∷ rows =
        sym (insert_rows-append c uuid4 w.table w.batch_writer.buffer stored)
        ∙ ap (λ b. w.table ++ b) full in
      let taken : Clashes c table (row ∷ rows) =
        subst (λ t. Clashes c t (row ∷ rows)) (sym joined)
          (inl (contains-ids_self c w.table rows row)) in
      rw (flush-lost c w.table table w.batch_writer row rows full stored)
        (record { same = refl; clash = subst (λ b. Clashes c table b) (sym full) taken })

  -- When the answer to the COMMIT of a flush is lost, the worker never writes a row again: it keeps
  -- the rows, whose ids the table has by then, so every later INSERT fails.
  pub lost_commit_blocks :
      {settings : Settings} (w : World c uuid4) (ack : Outcome) (later : ℕ)
      (row : TelemetryRecord c) (rows table : Table c) {v : World c uuid4}
      → w.batch_writer.buffer ≡ row ∷ rows
      → insert_rows c w.table w.batch_writer.buffer ≡ some table
      → Reach c uuid4 settings (flush_and_ack c uuid4 lost ack later w) v
      → v.table ≡ table
  lost_commit_blocks w ack later row rows table full stored r =
      (Reach-IsStuck (lost-IsStuck w ack later row rows table full stored) r).same
