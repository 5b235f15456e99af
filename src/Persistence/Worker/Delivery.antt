-- ===== src/Persistence/Worker/Delivery.antt =====
-- stream_to_postgres.py: an acknowledged entry is in the table.
use mathlib.Core.List.{append-nil}
use g_io_t_edge_gateway.Shared.Outcome.{Outcome, down, fine, lost}
use g_io_t_edge_gateway.Prelude.{
  All, All-append, All-map, Any, Any-append_left, Any-append_right, Bool, Bool-cases, List, Option,
  Option-cases, String, Within, [], ap, false, inl, inr, is_empty, is_empty_lem, ltb, nat_eq, none,
  refl, some, string_eq, subst, true, ℕ, ◌++◌, ◌∙◌, ◌≡◌, ◌⊎◌,
}
use g_io_t_edge_gateway.Shared.Telemetry.{Codec}
use g_io_t_edge_gateway.Persistence.BatchWriter.{
  BatchWriter, Table, TelemetryRecord, commit, flush, insert_rows, size,
}
use g_io_t_edge_gateway.Persistence.Worker.{
  Reach, Settings, Step, Turn, World, ack_pending, after_flush, end_turn, flush_and_ack, here,
  is_due, next, process_entries, shutdown, stopped, turn, turned,
}
use g_io_t_edge_gateway.Persistence.Worker.Sound.{
  IsSound, Settled, Settled-Within, Stored, Stored-Within, acknowledged-IsSound, insert_rows-append,
  process_entries-IsSound,
}

module _ (c : Codec) (uuid4 : String → String) where
  -- What `flush` leaves: all is sound, and unless it raised the pending entries are in the table.
  abbrev Flushed : World c uuid4 → Table c × BatchWriter c × Option ℕ → Type 0
  Flushed w (table, writer, out) =
      IsSound c uuid4 (record w { table = table; batch_writer = writer })
      × ((out ≡ none) ⊎ All (Stored c uuid4 w.delivered table) w.pending_ids)

  -- All that was in the table or the buffer is in the new table.
  Flushed-new :
      (w : World c uuid4) (table : Table c) (rows : List (TelemetryRecord c)) (out : Option ℕ)
      → w.table ++ w.batch_writer.buffer ≡ table
      → IsSound c uuid4 w
      → Flushed w (table, record w.batch_writer { buffer = rows }, out)
  Flushed-new w table rows out e s =
      let old : Within w.table table =
        λ P i. subst (Any P) e (Any-append_left P w.table w.batch_writer.buffer i) in
      let all : All (Stored c uuid4 w.delivered table) w.pending_ids =
        subst (λ t. All (Stored c uuid4 w.delivered t) w.pending_ids) e s.pending in
      (
        record {
          pending =
              All-map (Stored-Within c uuid4 (λ P i. i) (λ P i. Any-append_left P table rows i))
                w.pending_ids all;
          settled = All-map (Settled-Within c uuid4 (λ P i. i) old) w.acked s.settled;
        },
        inr all,
      )

  commit-Flushed :
      (outcome : Outcome) (w : World c uuid4) (o : Option (Table c))
      → insert_rows c w.table w.batch_writer.buffer ≡ o
      → IsSound c uuid4 w
      → Flushed w (commit c outcome w.table w.batch_writer o)
  unfolding commit
  commit-Flushed outcome w none e s = (s, inl refl)
  commit-Flushed fine w (some table) e s =
      Flushed-new w table [] (some (size c w.batch_writer))
        (insert_rows-append c uuid4 w.table w.batch_writer.buffer e) s
  commit-Flushed lost w (some table) e s =
      Flushed-new w table w.batch_writer.buffer none
        (insert_rows-append c uuid4 w.table w.batch_writer.buffer e) s
  commit-Flushed down w (some table) e s = (s, inl refl)

  flush-Flushed :
      (outcome : Outcome) (w : World c uuid4)
      → IsSound c uuid4 w
      → Flushed w (flush c outcome w.table w.batch_writer)
  unfolding flush
  flush-Flushed outcome w s = elim (Bool-cases (is_empty w.batch_writer.buffer)) [
    | inl e ↦
        let nothing : w.table ++ w.batch_writer.buffer ≡ w.table =
          ap (λ b. w.table ++ b) (is_empty_lem w.batch_writer.buffer e) ∙ append-nil w.table in
        rw e
          (s, inr (subst (λ t. All (Stored c uuid4 w.delivered t) w.pending_ids) nothing s.pending))
    | inr e ↦ rw e (commit-Flushed outcome w (insert_rows c w.table w.batch_writer.buffer) refl s)
  ]

  ack_pending-IsSound :
      (outcome : Outcome) (later : ℕ) (w : World c uuid4)
      → All (Stored c uuid4 w.delivered w.table) w.pending_ids
      → IsSound c uuid4 w
      → IsSound c uuid4 (ack_pending c uuid4 outcome later w)
  unfolding ack_pending
  ack_pending-IsSound fine later w all s = record {
    pending = tt;
    settled = All-append _ w.acked w.pending_ids s.settled (All-map (λ id. inl) w.pending_ids all);
  }
  ack_pending-IsSound lost later w all s =
      acknowledged-IsSound c uuid4 w w.pending_ids (All-map (λ id. inl) w.pending_ids all) s
  ack_pending-IsSound down later w all s = s

  after_flush-IsSound :
      (ack : Outcome) (later : ℕ) (w : World c uuid4) (r : Table c × BatchWriter c × Option ℕ)
      → Flushed w r
      → IsSound c uuid4 (after_flush c uuid4 ack later w r)
  after_flush-IsSound ack later w (table, writer, none) (s, _) = s
  after_flush-IsSound ack later w (table, writer, some count) (s, inl e) = cc
  after_flush-IsSound ack later w (table, writer, some count) (s, inr all) =
      elim (Bool-cases (is_empty w.pending_ids)) [
        | inl e ↦ rw e (record { pending = s.pending; settled = s.settled })
        | inr e ↦ rw e (
            ack_pending-IsSound ack later (record w { table = table; batch_writer = writer }) all s)
      ]

  flush_and_ack-IsSound :
      (session ack : Outcome) (later : ℕ) (w : World c uuid4)
      → IsSound c uuid4 w
      → IsSound c uuid4 (flush_and_ack c uuid4 session ack later w)
  unfolding flush_and_ack
  flush_and_ack-IsSound session ack later w s =
      after_flush-IsSound ack later w (flush c session w.table w.batch_writer)
        (flush-Flushed session w s)

  end_turn-IsSound :
      (settings : Settings) (t : Turn) (r : World c uuid4 × Bool)
      → IsSound c uuid4 r.0
      → IsSound c uuid4 (end_turn c uuid4 settings t r)
  end_turn-IsSound settings t (w, false) s = s
  end_turn-IsSound settings t (w, true) s = elim (Bool-cases (is_due c uuid4 settings t.now w)) [
    | inl due ↦ rw due (flush_and_ack-IsSound t.session t.ack t.later w s)
    | inr early ↦ rw early s
  ]

  turn-IsSound :
      (settings : Settings) (t : Turn) (w : World c uuid4)
      → IsSound c uuid4 w
      → IsSound c uuid4 (turn c uuid4 settings t w)
  unfolding turn
  turn-IsSound settings t w s = elim (Option-cases t.entries) [
    | inl e ↦ rw e s
    | inr (entries, e) ↦
        let more : Within w.delivered (w.delivered ++ entries) =
          λ P i. Any-append_left P w.delivered entries i in
        let w' : World c uuid4 = record w { delivered = w.delivered ++ entries } in
        let s' : IsSound c uuid4 w' = record {
          pending = All-map (Stored-Within c uuid4 more (λ P i. i)) w.pending_ids s.pending;
          settled = All-map (Settled-Within c uuid4 more (λ P i. i)) w.acked s.settled;
        } in
        rw e (
          end_turn-IsSound settings t (process_entries c uuid4 t.bad_acks w' entries) (
            process_entries-IsSound c uuid4 t.bad_acks w' entries
              (λ P i. Any-append_right P w.delivered entries i) s'))
  ]

  Step-IsSound :
      {settings : Settings} {w v : World c uuid4}
      → Step c uuid4 settings w v
      → IsSound c uuid4 w
      → IsSound c uuid4 v
  unfolding shutdown
  Step-IsSound {settings} {w} (turned t) s = turn-IsSound settings t w s
  Step-IsSound {settings} {w} (stopped session ack) s =
      elim (Bool-cases (ltb 0 (size c w.batch_writer))) [
        | inl e ↦ rw e (flush_and_ack-IsSound session ack w.last_flush_time w s)
        | inr e ↦ rw e s
      ]

  Reach-IsSound :
      {settings : Settings} {w v : World c uuid4}
      → IsSound c uuid4 w
      → Reach c uuid4 settings w v
      → IsSound c uuid4 v
  Reach-IsSound s here = s
  Reach-IsSound s (next r step) = Step-IsSound step (Reach-IsSound s r)

  -- The worker and the servers at the start; the table may have rows.
  abbrev pub start : Table c → ℕ → World c uuid4
  start table now = record {
    batch_writer = record { buffer = [] };
    pending_ids = [];
    last_flush_time = now;
    table = table;
    delivered = [];
    acked = [];
  }

  -- Whatever Redis and PostgreSQL answer, lost answers and failures included, an entry that the
  -- worker has acknowledged is in the table as its record, or it cannot be parsed.
  pub acked_is_Settled :
      {settings : Settings} (table : Table c) (now : ℕ) {w : World c uuid4}
      → Reach c uuid4 settings (start table now) w
      → All (Settled c uuid4 w.delivered w.table) w.acked
  acked_is_Settled table now r = (Reach-IsSound (record { pending = tt; settled = tt }) r).settled
