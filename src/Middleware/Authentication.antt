-- ===== src/Middleware/Authentication.antt =====
-- middleware_layers/authentication.py. The decoding of a JWT and of an API key's JSON are
-- parameters.
pub mod KeyLife
use Prim.Native.String.{◌++◌ as str_append, slice, len}
use text.Mathlib.Text.{starts_with}
use g_io_t_edge_gateway.Prelude.{
  Bool, List, Option, String, [], contains, if◌then◌else◌, nat_eq, none, some, string_eq, ℕ, ◌==◌,
  ◌||◌, ◌∷◌,
}
use g_io_t_edge_gateway.Redis.{Redis}
use g_io_t_edge_gateway.Middleware.AuthService.{api_key_prefix}

abbrev pub excluded_paths : List String
excluded_paths =
    "/health" ∷ "/ready" ∷ "/health/dependencies" ∷ "/auth/login" ∷ "/auth/login" ∷ "/docs"
    ∷ "/redoc" ∷ "/openapi.json" ∷ []

-- `path in EXCLUDED_PATHS or path.startswith(EXCLUDED_PREFIXES)`.
abbrev pub is_public : String → Bool
is_public path =
    contains path excluded_paths || starts_with path "/health" || starts_with path "/docs"

-- The claims of a JWT, and the metadata of an API key, as `.get` reads them.
pub record Claims : Type 0 where
  pub sub : Option String
  pub role : Option String

pub record KeyMeta : Type 0 where
  pub key_id : Option String
  pub name : Option String
  pub role : Option String

pub data AuthMethod : Type 0 where
  jwt api_key : AuthMethod

-- `request.state.user`.
pub record Identity : Type 0 where
  pub sub : Option String
  pub role : String
  pub auth_method : AuthMethod
  pub key_id : Option String

-- The request goes on, as it is or with an identity, or is answered 401 with a detail.
pub data Admission : Type 0 where
  public : Admission
  admitted : Identity → Admission
  unauthorized : String → Admission

-- `decode_token` gives none on a JWTError, `loads` where `json.loads` raises.
pub record Decoders : Type 0 where
  pub decode_token : String → Option Claims
  pub loads : String → Option KeyMeta

abbrev pub or_default : Option String → String → String
or_default none default = default
or_default (some text) default = text

-- `auth_header[7:]`; both prefixes are seven ASCII characters.
abbrev pub token_of : String → String
token_of header = slice header 7 (len header)

unfoldable pub validate_jwt : Decoders → String → Option Identity
validate_jwt decoders token = elim (decoders.decode_token token) [
  | none ↦ none
  | some claims ↦ some (record {
    sub = claims.sub;
    role = or_default claims.role "user";
    auth_method = jwt;
    key_id = none;
  })
]

abbrev pub key_identity : KeyMeta → Identity
key_identity meta = record {
  sub = some (or_default meta.name "api-key-user");
  role = or_default meta.role "device";
  auth_method = api_key;
  key_id = meta.key_id;
}

abbrev pub admit : Option Identity → String → Admission
admit none detail = unauthorized detail
admit (some user) detail = admitted user

module _ (r : Redis) (decoders : Decoders) where
  open r use {Db, get}

  unfoldable pub validate_api_key : ℕ → Db → String → Option Identity
  validate_api_key now d key = elim (get now d (str_append api_key_prefix key)) [
    | none ↦ none
    | some text ↦ elim (decoders.loads text) [ none ↦ none | some meta ↦ some (key_identity meta) ]
  ]

  -- What becomes of a request with a path and an `Authorization` header.
  unfoldable pub authenticate : ℕ → Db → String → Option String → Admission
  unfolding validate_jwt validate_api_key
  authenticate now d path none =
      if is_public path then public else unauthorized "Missing Authorization header"
  authenticate now d path (some header) =
      if is_public path
      then public
      else if header == ""
      then unauthorized "Missing Authorization header"
      else if starts_with header "Bearer "
      then admit (validate_jwt decoders (token_of header)) "Invalid or expired JWT token"
      else if starts_with header "ApiKey "
      then admit (validate_api_key now d (token_of header)) "Invalid API key"
      else unauthorized "Authorization header must start with 'Bearer' or 'ApiKey'"
