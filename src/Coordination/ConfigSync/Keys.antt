-- ===== src/Coordination/ConfigSync/Keys.antt =====
-- config_sync.py: the Redis keys, and what a write and a full sync store.
use Prim.Native.String.{◌++◌ as str_append, count}
use text.Mathlib.TextLemmas.{append_assoc, append_cancel_left, length-append}
use text.Mathlib.TextPositions.{len-append, slice-append_right}
use g_io_t_edge_gateway.Prelude.{
  Option-cases, String, ap, arith, false, inl, inr, nat_eq, none, some, string_eq, subst, suc, sym,
  ℕ, ◌∙◌, ◌≡◌, ◌≢◌, ◌≤◌,
}
use g_io_t_edge_gateway.Dict.{insert}
use g_io_t_edge_gateway.Dict.Laws.{get_or-lookup, lookup-insert}
use g_io_t_edge_gateway.Redis.Counting.{incr_of_count}
use g_io_t_edge_gateway.Redis.{Redis, RedisLaws, counted}
use g_io_t_edge_gateway.Coordination.ClusterState.{get_config, set_config}
use g_io_t_edge_gateway.Coordination.ConfigSync.{
  ConfigSync, Json, config_prefix, config_updates_channel, get_local, read_config, set_local,
  short_key, value_key, version_key, write_config,
}

-- The value of the key "version:k" is stored where the version counter of "k" is.
value_key-version : (k : String) → value_key (str_append "version:" k) ≡ version_key k
unfolding value_key version_key
value_key-version k = sym (append_assoc config_prefix "version:" k)

-- A key's value and its version counter are stored under different keys.
value_key-ne-version_key : (k : String) → value_key k ≢ version_key k
unfolding value_key version_key
value_key-ne-version_key k e =
    let same : k ≡ str_append "version:" k =
      append_cancel_left config_prefix k (str_append "version:" k)
        (e ∙ append_assoc config_prefix "version:" k) in
    absurd (omega (arith, ap count same, length-append "version:" k))

pub short_key-value_key : (k : String) → short_key (value_key k) ≡ k
unfolding short_key value_key
short_key-value_key k = rw (len-append config_prefix k) (slice-append_right config_prefix k)

module _ (r : Redis) (laws : RedisLaws r) (json : Json) where
  open r use {Db, get, set, incr, parse, publish, number}

  -- A write succeeds whenever the key's counter is a number (a missing one counts as 0), whatever
  -- other clients do between its two requests: the version is one more, the local cache and the
  -- cluster state have the value, and so has Redis at any later
  -- read with no write in between.
  pub write_config_lem :
      (t₀ t₁ later : ℕ) (between : Db → Db) (d : Db) (c : ConfigSync) (key value : String) (n : ℕ)
      → t₁ ≤ later
      → counted parse (get t₀ d (version_key key)) ≡ some n
      → (d' : Db) × (write_config r json t₀ t₁ between d c key value
          ≡ some (d', set_local c key value (suc n), suc n))
        × (read_config r json later d' key ≡ some value)
        × (get_local (set_local c key value (suc n)) key ≡ (value, suc n))
        × (get_config (set_local c key value (suc n)).cluster_state key ≡ some value)
  unfolding write_config read_config get_local set_local get_config set_config
  write_config_lem t₀ t₁ later between d c key value n p h =
      let (d₀, e) = incr_of_count r laws t₀ d (version_key key) n h in
      (
        publish (set t₁ (between d₀) (value_key key) value none false).0 config_updates_channel (
            json.dumps
              (record { key = key; value = value; version = suc n; updated_by = c.node_id })),
        ground (arith, e),
        ground (
          arith,
          laws.get_publish later (set t₁ (between d₀) (value_key key) value none false).0
              config_updates_channel
              (json.dumps
                (record { key = key; value = value; version = suc n; updated_by = c.node_id }))
              (value_key key),
          laws.get_set t₁ later (between d₀) (value_key key) value none (value_key key) p,
          string_eq.beq_iff (value_key key) (value_key key),
        ),
        ground (
          arith,
          get_or-lookup key ("", 0) (insert key (value, suc n) c.local_config),
          lookup-insert key key (value, suc n) c.local_config,
          string_eq.beq_iff key key,
        ),
        ground
            (arith, lookup-insert key key value c.cluster_state.config, string_eq.beq_iff key key),
      )

  -- A write under "version:k" replaces the version counter of "k": if its value is no number, every
  -- later write of "k" fails.
  pub write_config_collision :
      (t₀ t₁ t₂ t₃ : ℕ) (between others : Db → Db) (d : Db) (c c' : ConfigSync)
      (k text value : String) (n : ℕ)
      → t₁ ≤ t₂
      → counted parse (get t₀ d (version_key (str_append "version:" k))) ≡ some n
      → parse text ≡ none
      → (d' : Db) × (write_config r json t₀ t₁ between d c (str_append "version:" k) text
          ≡ some (d', set_local c (str_append "version:" k) text (suc n), suc n))
        × (write_config r json t₂ t₃ others d' c' k value ≡ none)
  unfolding read_config
  write_config_collision t₀ t₁ t₂ t₃ between others d c c' k text value n p h bad =
      let (d', wrote, reads, _, _) =
        write_config_lem t₀ t₁ t₂ between d c (str_append "version:" k) text n p h in
      (d', wrote, failing d' (subst (λ x. get t₂ d' x ≡ some text) (value_key-version k) reads))
    where
      failing :
          (x : Db)
          → get t₂ x (version_key k) ≡ some text
          → write_config r json t₂ t₃ others x c' k value ≡ none
      failing x e =
          unfold write_config in
          elim (Option-cases (incr t₂ x (version_key k))) [
            | inl none' ↦ ground (arith, none')
            | inr (_, e') ↦ ground (arith, laws.incr_count t₂ x (version_key k))
          ]
