-- ===== src/DataIngestion/Delivery.antt =====
-- ingestion_service.py and mqtt_subscriber.py: what consumers of the stream read.
use mathlib.Core.List.{append_assoc, append-nil}
use g_io_t_edge_gateway.Prelude.{
  List, Option, String, [], ap, arith, drop, inl, inr, length, length-append, map, nat_eq, none,
  refl, some, string_eq, suc, sym, zero, ℕ, ◌++◌, ◌+◌, ◌-◌, ◌∙◌, ◌∷◌, ◌≡◌, ◌≤◌, ◌⊎◌,
}
use g_io_t_edge_gateway.Dict.{Dict}
use g_io_t_edge_gateway.Shared.Outcome.{Outcome, down, fine, lost}
use g_io_t_edge_gateway.Shared.Telemetry.{
  Codec, CodecLaws, TelemetryReading, from_stream_dict, from_stream_dict-to_stream_dict,
  to_stream_dict,
}
use g_io_t_edge_gateway.DataIngestion.Ingest.{
  Bodies, Ingestion, Message, handle_message, handle_messages, process, reading_of, xadd_entry,
}

module _ (c : Codec) (b : Bodies c) where
  -- The reading of a message, if it is valid and Redis takes it.
  abbrev accepted_one : Option (TelemetryReading c) → Outcome → List (TelemetryReading c)
  accepted_one none xadd = []
  accepted_one (some reading) fine = reading ∷ []
  accepted_one (some reading) lost = reading ∷ []
  accepted_one (some reading) down = []

  abbrev pub accepted : List (Message c b × Outcome) → List (TelemetryReading c)
  accepted [] = []
  accepted ((m, xadd) ∷ ms) = accepted_one (reading_of c b m) xadd ++ accepted ms

  -- Published messages are added, and added ones received.
  abbrev pub IsCounted : Ingestion c b → Type 0
  IsCounted i = (i.published ≤ length i.added) × (length i.added ≤ i.received)

  handle_message_lem :
      (xadd : Outcome) (m : Message c b) (i : Ingestion c b)
      → (handle_message c b xadd m i).added
        ≡ i.added ++ map (to_stream_dict c) (accepted_one (reading_of c b m) xadd)
  unfolding handle_message process
  handle_message_lem xadd m i = by_reading (reading_of c b m) xadd refl
    where
      by_reading :
          (o : Option (TelemetryReading c)) (xadd : Outcome)
          → reading_of c b m ≡ o
          → (handle_message c b xadd m i).added
            ≡ i.added ++ map (to_stream_dict c) (accepted_one o xadd)
      by_reading none xadd e = rw (e, handle_message) (sym (append-nil i.added))
      by_reading (some reading) fine e = rw (e, handle_message) refl
      by_reading (some reading) lost e = rw (e, handle_message) refl
      by_reading (some reading) down e = rw (e, handle_message) (sym (append-nil i.added))

  handle_message-IsCounted :
      (xadd : Outcome) (m : Message c b) (i : Ingestion c b)
      → IsCounted i
      → IsCounted (handle_message c b xadd m i)
  unfolding handle_message process
  handle_message-IsCounted xadd m i counted = by_reading (reading_of c b m) xadd refl
    where
      by_reading :
          (o : Option (TelemetryReading c)) (xadd : Outcome)
          → reading_of c b m ≡ o
          → IsCounted (handle_message c b xadd m i)
      by_reading none xadd e = rw (e, handle_message) counted
      by_reading (some reading) fine e =
          rw (e, handle_message)
            (omega (arith, counted.0, longer), omega (arith, counted.1, longer))
        where
          longer : length (i.added ++ to_stream_dict c reading ∷ []) ≡ suc (length i.added)
          longer = omega (arith, length-append i.added (to_stream_dict c reading ∷ []))
      by_reading (some reading) lost e =
          rw (e, handle_message)
            (omega (arith, counted.0, longer), omega (arith, counted.1, longer))
        where
          longer : length (i.added ++ to_stream_dict c reading ∷ []) ≡ suc (length i.added)
          longer = omega (arith, length-append i.added (to_stream_dict c reading ∷ []))
      by_reading (some reading) down e =
          rw (e, handle_message) (counted.0, omega (arith, counted.1))

  map-append : {A B : Type 0} (f : A → B) (xs ys : List A) → map f (xs ++ ys) ≡ map f xs ++ map f ys
  map-append f [] ys = refl
  map-append f (x ∷ xs) ys = ap (λ zs. f x ∷ zs) (map-append f xs ys)

  pub handle_messages-added :
      (ms : List (Message c b × Outcome)) (i : Ingestion c b)
      → (handle_messages c b ms i).added ≡ i.added ++ map (to_stream_dict c) (accepted ms)
  unfolding handle_messages
  handle_messages-added [] i = sym (append-nil i.added)
  handle_messages-added ((m, xadd) ∷ ms) i =
      let now : List (TelemetryReading c) = accepted_one (reading_of c b m) xadd in
      handle_messages-added ms (handle_message c b xadd m i)
      ∙ ap (λ xs. xs ++ map (to_stream_dict c) (accepted ms)) (handle_message_lem xadd m i)
      ∙ append_assoc i.added (map (to_stream_dict c) now) (map (to_stream_dict c) (accepted ms))
      ∙ ap (λ xs. i.added ++ xs) (sym (map-append (to_stream_dict c) now (accepted ms)))

  -- What XADD with an approximate MAXLEN does: it drops some of the oldest entries or none, and
  -- those that it leaves are not fewer than the limit, if it drops any.
  abbrev pub Left : ℕ → List (Dict String String) → List (Dict String String) → Type 0
  Left limit all left =
      (gone : ℕ) × (left ≡ drop gone all) × ((gone ≡ 0) ⊎ (limit + gone ≤ length all))

  abbrev pub TrimLaw : Type 0
  TrimLaw = (limit : ℕ) (xs : List (Dict String String)) → Left limit xs (b.trim limit xs)

  -- The stream has the latest of what was ever added.
  abbrev IsTail : Ingestion c b → Type 0
  IsTail i = Left b.stream_max_len i.added i.stream

  drop-append :
      (n : ℕ) (xs : List (Dict String String)) (e : Dict String String)
      → n ≤ length xs
      → drop n xs ++ e ∷ [] ≡ drop n (xs ++ e ∷ [])
  drop-append zero xs e h = refl
  drop-append (suc n) [] e h = absurd (omega (arith, h))
  drop-append (suc n) (x ∷ xs) e h = drop-append n xs e (omega (arith, h))

  drop-drop : (m n : ℕ) (xs : List (Dict String String)) → drop n (drop m xs) ≡ drop (m + n) xs
  drop-drop zero n xs = ap (λ k. drop k xs) (omega arith)
  drop-drop (suc m) zero [] = let e : suc m ≡ suc m + 0 = omega arith in ap (λ k. drop k []) e
  drop-drop (suc m) (suc n) [] =
      let e : suc (m + suc n) ≡ suc m + suc n = omega arith in ap (λ k. drop k []) e
  drop-drop (suc m) n (x ∷ xs) =
      let e : suc (m + n) ≡ suc m + n = omega arith in
      drop-drop m n xs ∙ ap (λ k. drop k (x ∷ xs)) e

  length-drop : (n : ℕ) (xs : List (Dict String String)) → length (drop n xs) ≡ length xs - n
  length-drop zero xs = omega arith
  length-drop (suc n) [] = omega arith
  length-drop (suc n) (x ∷ xs) = omega (arith, length-drop n xs)

  xadd_entry-IsTail :
      TrimLaw
      → (entry : Dict String String) (i : Ingestion c b) → IsTail i
      → IsTail (xadd_entry c b entry i)
  xadd_entry-IsTail law entry i (gone, is_tail, few) =
      let (more, is_left, few') = law b.stream_max_len (i.stream ++ entry ∷ []) in
      let small : gone ≤ length i.added = ground (arith, few) in
      let longer : i.stream ++ entry ∷ [] ≡ drop gone (i.added ++ entry ∷ []) =
        ap (λ xs. xs ++ entry ∷ []) is_tail ∙ drop-append gone i.added entry small in
      (
        gone + more,
        is_left ∙ ap (drop more) longer ∙ drop-drop gone more (i.added ++ entry ∷ []),
        elim few' [
          | inl e ↦ elim few [
            | inl e' ↦ inl (omega (arith, e, e'))
            | inr h' ↦ inr (omega (arith, e, h', length-append i.added (entry ∷ [])))
          ]
          | inr h ↦ inr (
              omega (
                arith,
                h,
                small,
                ap length longer,
                length-drop gone (i.added ++ entry ∷ []),
                length-append i.added (entry ∷ []),
              ))
        ],
      )

  handle_message-IsTail :
      TrimLaw
      → (xadd : Outcome) (m : Message c b) (i : Ingestion c b) → IsTail i
      → IsTail (handle_message c b xadd m i)
  unfolding handle_message process
  handle_message-IsTail law xadd m i tail = by_reading (reading_of c b m) xadd refl
    where
      by_reading :
          (o : Option (TelemetryReading c)) (xadd : Outcome)
          → reading_of c b m ≡ o
          → IsTail (handle_message c b xadd m i)
      by_reading none xadd e = rw (e, handle_message) tail
      by_reading (some reading) fine e =
          rw (e, handle_message) (xadd_entry-IsTail law (to_stream_dict c reading) i tail)
      by_reading (some reading) lost e =
          rw (e, handle_message) (xadd_entry-IsTail law (to_stream_dict c reading) i tail)
      by_reading (some reading) down e = rw (e, handle_message) tail

  handle_messages-IsTail :
      TrimLaw
      → (ms : List (Message c b × Outcome)) (i : Ingestion c b) → IsTail i
      → IsTail (handle_messages c b ms i)
  unfolding handle_messages
  handle_messages-IsTail law [] i tail = tail
  handle_messages-IsTail law ((m, xadd) ∷ ms) i tail =
      handle_messages-IsTail law ms (handle_message c b xadd m i)
        (handle_message-IsTail law xadd m i tail)

  map-drop :
      {A B : Type 0} (f : A → B) (n : ℕ) (xs : List A) → map f (drop n xs) ≡ drop n (map f xs)
  map-drop f zero xs = refl
  map-drop f (suc n) [] = refl
  map-drop f (suc n) (x ∷ xs) = map-drop f n xs

  length-map : {A B : Type 0} (f : A → B) (xs : List A) → length (map f xs) ≡ length xs
  length-map f [] = refl
  length-map f (x ∷ xs) = ap suc (length-map f xs)

  -- Whatever messages arrive at an empty stream and however Redis answers: who reads the stream
  -- from its first entry reads the readings of the valid messages that Redis took, each as it was,
  -- in the order of arrival, and nothing else, but for the oldest `gone` of them. None is gone
  -- unless at least `stream_max_len` of them remain. This is if UUIDs, times and JSON survive their
  -- text, and if XADD trims as documented.
  pub consumers_read :
      CodecLaws c
      → TrimLaw
      → (ms : List (Message c b × Outcome)) (i : Ingestion c b) → i.added ≡ []
      → i.stream ≡ []
      → let w = handle_messages c b ms i in
        (gone : ℕ) × (map (from_stream_dict c) w.stream
          ≡ map (λ r. some r) (drop gone (accepted ms)))
        × ((gone ≡ 0) ⊎ (b.stream_max_len + gone ≤ length (accepted ms)))
  consumers_read laws law ms i nothing empty =
      let (gone, is_tail, few) =
        handle_messages-IsTail law ms i (0, (empty ∙ sym nothing), inl refl) in
      let added : (handle_messages c b ms i).added ≡ map (to_stream_dict c) (accepted ms) =
        handle_messages-added ms i
        ∙ ap (λ xs. xs ++ map (to_stream_dict c) (accepted ms)) nothing in
      (
        gone,
        ap (map (from_stream_dict c)) (
              is_tail ∙ ap (drop gone) added ∙ sym (map-drop (to_stream_dict c) gone (accepted ms)))
            ∙ read_back (drop gone (accepted ms)),
        elim few [
          | inl e ↦ inl e
          | inr h ↦
              inr (omega (arith, h, ap length added, length-map (to_stream_dict c) (accepted ms)))
        ],
      )
    where
      read_back :
          (rs : List (TelemetryReading c))
          → map (from_stream_dict c) (map (to_stream_dict c) rs) ≡ map (λ r. some r) rs
      read_back [] = refl
      read_back (r ∷ rs) = ground (arith, from_stream_dict-to_stream_dict c laws r, read_back rs)

  handle_messages-IsCounted :
      (ms : List (Message c b × Outcome)) (i : Ingestion c b)
      → IsCounted i
      → IsCounted (handle_messages c b ms i)
  unfolding handle_messages
  handle_messages-IsCounted [] i counted = counted
  handle_messages-IsCounted ((m, xadd) ∷ ms) i counted =
      handle_messages-IsCounted ms (handle_message c b xadd m i)
        (handle_message-IsCounted xadd m i counted)
