-- ===== src/Middleware/Authentication/KeyLife.antt =====
-- authentication.py and auth_service.py together: which requests an API key admits.
use Prim.Native.String.{◌++◌ as str_append, compare, count}
use text.Mathlib.Text.{starts_with, is_eq}
use text.Mathlib.TextLemmas.{length-append}
use text.Mathlib.TextPositions.{
  slice-append_left, slice-append_right, starts_with-append, len-append,
}
use g_io_t_edge_gateway.Prelude.{
  ==_ne, String, ap, arith, false, nat_eq, some, string_eq, ℕ, ◌==◌, ◌≡◌, ◌≤◌,
}
use g_io_t_edge_gateway.Redis.{Redis, RedisLaws}
use g_io_t_edge_gateway.Middleware.AuthService.{MetaJson, create_api_key, revoke_api_key}
use g_io_t_edge_gateway.Middleware.AuthService.ApiKeys.{get-create, get-revoke}
use g_io_t_edge_gateway.Middleware.Authentication.{
  Decoders, admit, admitted, api_key, authenticate, is_public, token_of, unauthorized,
  validate_api_key,
}

-- The header that a client with a key sends.
abbrev pub key_header : String → String
key_header key = str_append "ApiKey " key

token_of-key_header : (key : String) → token_of (key_header key) ≡ key
token_of-key_header key = rw (len-append "ApiKey " key) (slice-append_right "ApiKey " key)

no_bearer : (key : String) → starts_with (key_header key) "Bearer " ≡ false
no_bearer key = ap (λ v. is_eq (compare v "Bearer ")) (slice-append_left "ApiKey " key)

not_empty : (key : String) → (key_header key == "") ≡ false
not_empty key =
    ==_ne (key_header key) "" (λ e. absurd (omega (arith, ap count e, length-append "ApiKey " key)))

module _ (r : Redis) (decoders : Decoders) where
  open r use {Db, get}

  authenticate-key_header :
      (now : ℕ) (d : Db) (path key : String)
      → is_public path ≡ false
      → authenticate r decoders now d path (some (key_header key))
        ≡ admit (validate_api_key r decoders now d key) "Invalid API key"
  unfolding authenticate
  authenticate-key_header now d path key closed = ground (
    arith,
    closed,
    not_empty key,
    no_bearer key,
    starts_with-append "ApiKey " key,
    token_of-key_header key,
  )

  module _ (laws : RedisLaws r) (json : MetaJson) where
    -- A new API key admits requests with its name and role, at any time after it was made, and no
    -- more once it is revoked, if the middleware can read the metadata that the service writes.
    pub key_life :
        (t₀ t₁ between t₂ t₃ later : ℕ) (d : Db) (path id raw name role : String)
        → t₀ ≤ t₁
        → t₁ ≤ between
        → t₁ ≤ t₂
        → t₂ ≤ t₃
        → t₃ ≤ later
        → is_public path ≡ false
        → decoders.loads (json.dumps (record { key_id = id; name = name; role = role }))
          ≡ some (record { key_id = some id; name = some name; role = some role })
        → let d₁ = (create_api_key r json t₀ t₁ d id raw name role).0 in
          let d₂ = (revoke_api_key r json t₂ t₃ d₁ id).0 in
          (authenticate r decoders between d₁ path (some (key_header raw))
            ≡ admitted
                (record { sub = some name; role = role; auth_method = api_key; key_id = some id }))
          × (authenticate r decoders later d₂ path (some (key_header raw))
              ≡ unauthorized "Invalid API key")
    unfolding validate_api_key create_api_key
    key_life t₀ t₁ between t₂ t₃ later d path id raw name role p q s u v closed trips =
        let d₁ = (create_api_key r json t₀ t₁ d id raw name role).0 in
        let d₂ = (revoke_api_key r json t₂ t₃ d₁ id).0 in
        (
          ground (
            arith,
            trips,
            authenticate-key_header between d₁ path raw closed,
            (get-create r laws json t₀ t₁ between d id raw name role raw p q).0,
            string_eq.beq_iff raw raw,
          ),
          ground (
            arith,
            authenticate-key_header later d₂ path raw closed,
            (get-revoke r laws json t₀ t₁ t₂ t₃ later d id raw name role raw p s u v).1,
            string_eq.beq_iff raw raw,
          ),
        )
