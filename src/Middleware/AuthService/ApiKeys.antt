-- ===== src/Middleware/AuthService/ApiKeys.antt =====
-- auth_service.py: what the API keys in Redis are after a key is made and revoked.
use Prim.Native.String.{◌++◌ as str_append, slice, len}
use text.Mathlib.TextLemmas.{append_assoc, append_cancel_left}
use text.Mathlib.TextPositions.{slice-append_left}
use g_io_t_edge_gateway.Prelude.{
  ==_eq, ==_false, ==_ne, ==_refl, Bool-cases, String, [], ap, arith, contains, false,
  if◌then◌else◌, inl, inr, nat_eq, none, refl, some, string_eq, sym, true, ℕ, ◌==◌, ◌∙◌, ◌∷◌, ◌≡◌,
  ◌≢◌, ◌≤◌,
}
use g_io_t_edge_gateway.Redis.{Redis, RedisLaws}
use g_io_t_edge_gateway.Middleware.AuthService.{
  Meta, MetaJson, api_key_index_prefix, api_key_prefix, create_api_key, found, revoke_api_key,
  unknown, verify_api_key,
}

-- A key and an index entry are stored under different names.
key-ne-index :
    (raw id : String) → str_append api_key_prefix raw ≢ str_append api_key_index_prefix id
key-ne-index raw id e =
    let rest : str_append ":" raw ≡ str_append "_id:" id =
      append_cancel_left "apikey" (str_append ":" raw) (str_append "_id:" id)
        (sym (append_assoc "apikey" ":" raw) ∙ e ∙ append_assoc "apikey" "_id:" id) in
    let same : ":" ≡ "_" =
      sym (slice-append_left ":" raw)
      ∙ ap (λ x. slice x 0 (len ":")) (rest ∙ append_assoc "_" "id:" id)
      ∙ slice-append_left "_" (str_append "id:" id) in
    absurd (==_false {A = String} ":" "_" refl same)

key_eq : (a b : String) → (str_append api_key_prefix a == str_append api_key_prefix b) ≡ (a == b)
key_eq a b = elim (Bool-cases (a == b)) [
  | inl same ↦
      ap (λ x. str_append api_key_prefix a == str_append api_key_prefix x) (sym (==_eq a b same))
      ∙ ==_refl (str_append api_key_prefix a)
      ∙ sym same
  | inr differ ↦
      ==_ne (str_append api_key_prefix a) (str_append api_key_prefix b)
        (λ e. ==_false a b differ (append_cancel_left api_key_prefix a b e))
      ∙ sym differ
]

module _ (r : Redis) (laws : RedisLaws r) (json : MetaJson) where
  open r use {Db, get}

  -- What the entries of API keys read after a key is made.
  pub get-create :
      (t₀ t₁ later : ℕ) (d : Db) (id raw name role other : String)
      → t₀ ≤ t₁
      → t₁ ≤ later
      → let (d', meta) = create_api_key r json t₀ t₁ d id raw name role in
        (get later d' (str_append api_key_prefix other) ≡ (
          if raw == other
          then some (json.dumps meta)
          else get later d (str_append api_key_prefix other)))
        × (get later d' (str_append api_key_index_prefix id) ≡ some raw)
  unfolding create_api_key
  get-create t₀ t₁ later d id raw name role other p q =
      let meta : Meta = record { key_id = id; name = name; role = role } in
      let k = str_append api_key_prefix raw in
      let i = str_append api_key_index_prefix id in
      let d₁ = (r.set t₀ d k (json.dumps meta) none false).0 in
      (
        ground (
          arith,
          key_eq raw other,
          ==_ne i (str_append api_key_prefix other) (λ e. key-ne-index other id (sym e)),
          laws.get_set t₁ later d₁ i raw none (str_append api_key_prefix other) q,
          laws.get_set t₀ later d k (json.dumps meta) none (str_append api_key_prefix other)
              (omega (arith, p, q)),
        ),
        ground (arith, laws.get_set t₁ later d₁ i raw none i q, string_eq.beq_iff i i),
      )

  -- What they read after it is revoked again, and that this succeeds.
  pub get-revoke :
      (t₀ t₁ t₂ t₃ later : ℕ) (d : Db) (id raw name role other : String)
      → t₀ ≤ t₁
      → t₁ ≤ t₂
      → t₂ ≤ t₃
      → t₃ ≤ later
      → let (d', answer) =
          revoke_api_key r json t₂ t₃ (create_api_key r json t₀ t₁ d id raw name role).0 id in
        (answer ≡ true)
        × (get later d' (str_append api_key_prefix other)
            ≡ (if raw == other then none else get later d (str_append api_key_prefix other)))
  unfolding revoke_api_key contains
  get-revoke t₀ t₁ t₂ t₃ later d id raw name role other p q s u =
      let k = str_append api_key_prefix raw in
      let i = str_append api_key_index_prefix id in
      let d₁ = (create_api_key r json t₀ t₁ d id raw name role).0 in
      let index = (get-create t₀ t₁ t₂ d id raw name role other p q).1 in
      let entry = (get-create t₀ t₁ later d id raw name role other p (omega (arith, q, s, u))).0 in
      (
        ground (arith, index),
        ground (
          arith,
          index,
          entry,
          key_eq raw other,
          ==_ne i (str_append api_key_prefix other) (λ e. key-ne-index other id (sym e)),
          laws.get_delete t₃ later d₁ (k ∷ i ∷ []) (str_append api_key_prefix other) u,
        ),
      )

  -- A new key is known with its metadata, its index entry holds the key itself, and every other
  -- key is known as before, if the metadata can be read back.
  pub verify-create :
      (t₀ t₁ later : ℕ) (d : Db) (id raw name role other : String)
      → t₀ ≤ t₁
      → t₁ ≤ later
      → json.loads (json.dumps (record { key_id = id; name = name; role = role }))
        ≡ some (record { key_id = id; name = name; role = role })
      → let (d', meta) = create_api_key r json t₀ t₁ d id raw name role in
        (verify_api_key r json later d' other
          ≡ (if raw == other then found meta else verify_api_key r json later d other))
        × (get later d' (str_append api_key_index_prefix id) ≡ some raw)
  unfolding verify_api_key create_api_key
  verify-create t₀ t₁ later d id raw name role other p q trips =
      let (entry, index) = get-create t₀ t₁ later d id raw name role other p q in
      (ground (arith, trips, entry), index)

  -- Revoking a new key succeeds; then that key is unknown, and every other is known as before the
  -- key was made.
  pub revoke-create :
      (t₀ t₁ t₂ t₃ later : ℕ) (d : Db) (id raw name role other : String)
      → t₀ ≤ t₁
      → t₁ ≤ t₂
      → t₂ ≤ t₃
      → t₃ ≤ later
      → let (d', answer) =
          revoke_api_key r json t₂ t₃ (create_api_key r json t₀ t₁ d id raw name role).0 id in
        (answer ≡ true)
        × (verify_api_key r json later d' other
            ≡ (if raw == other then unknown else verify_api_key r json later d other))
  unfolding verify_api_key
  revoke-create t₀ t₁ t₂ t₃ later d id raw name role other p q s u =
      let (answer, entry) = get-revoke t₀ t₁ t₂ t₃ later d id raw name role other p q s u in
      (answer, ground (arith, entry))
