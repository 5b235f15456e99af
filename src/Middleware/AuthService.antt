-- ===== src/Middleware/AuthService.antt =====
-- services/auth_service.py. The random tokens, SHA-256 and JSON are parameters.
pub mod ApiKeys
use Prim.Native.String.{◌++◌ as str_append}
use g_io_t_edge_gateway.Prelude.{
  Bool, Option, String, [], false, if◌then◌else◌, nat_eq, none, some, string_eq, true, ℕ, ◌==◌, ◌∷◌,
}
use g_io_t_edge_gateway.Dict.{Dict, lookup}
use g_io_t_edge_gateway.Redis.{Redis}

pub record UserRecord : Type 0 where
  pub password_hash : String
  pub user_role : String

-- `_DEV_USERS`.
abbrev pub dev_users : (String → String) → Dict String UserRecord
dev_users sha256 =
    ("admin", record { password_hash = sha256 "admin"; user_role = "admin" })
    ∷ ("operator", record { password_hash = sha256 "operator"; user_role = "user" })
    ∷ ("device-service", record { password_hash = sha256 "device-service"; user_role = "device" })
    ∷ []

-- The user name and the role, or `None`.
unfoldable pub authenticate_user : (String → String) → String → String → Option (String × String)
authenticate_user sha256 username password = elim (lookup username (dev_users sha256)) [
  | none ↦ none
  | some user ↦
      if sha256 password == user.password_hash then some (username, user.user_role) else none
]

-- The metadata of an API key.
pub record Meta : Type 0 where
  pub key_id : String
  pub name : String
  pub role : String

-- `json.dumps` and `json.loads`; `none` where it raises.
pub record MetaJson : Type 0 where
  pub dumps : Meta → String
  pub loads : String → Option Meta

-- What `verify_api_key` does: it returns None, raises or returns the metadata.
pub data Verdict : Type 0 where
  unknown : Verdict
  raised : Verdict
  found : Meta → Verdict

abbrev pub api_key_prefix : String
api_key_prefix = "apikey:"

abbrev pub api_key_index_prefix : String
api_key_index_prefix = "apikey_id:"

module _ (r : Redis) (json : MetaJson) where
  open r use {Db, get, set, delete}

  -- The two SETs at their times; `key_id` and `raw_key` are the random tokens.
  unfoldable pub create_api_key : (t₀ t₁ : ℕ) → Db → (key_id raw_key name role : String) → Db × Meta
  create_api_key t₀ t₁ d key_id raw_key name role =
      let meta : Meta = record { key_id = key_id; name = name; role = role } in
      let d₁ = (set t₀ d (str_append api_key_prefix raw_key) (json.dumps meta) none false).0 in
      ((set t₁ d₁ (str_append api_key_index_prefix key_id) raw_key none false).0, meta)

  unfoldable pub verify_api_key : ℕ → Db → String → Verdict
  verify_api_key now d api_key = elim (get now d (str_append api_key_prefix api_key)) [
    | none ↦ unknown
    | some text ↦ elim (json.loads text) [ none ↦ raised | some meta ↦ found meta ]
  ]

  -- GET and DEL at their times.
  unfoldable pub revoke_api_key : (t₀ t₁ : ℕ) → Db → String → Db × Bool
  revoke_api_key t₀ t₁ d key_id = elim (get t₀ d (str_append api_key_index_prefix key_id)) [
    | none ↦ (d, false)
    | some raw_key ↦ (
      delete t₁ d (str_append api_key_prefix raw_key ∷ str_append api_key_index_prefix key_id ∷ []),
      true,
    )
  ]
