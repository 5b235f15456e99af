-- ===== src/Middleware/Tests.antt =====
-- The theorems on the gateway over the database in memory.
use g_io_t_edge_gateway.Middleware.Proxy.{ProxyRequest, forwarded_chain_lost, last_value, proxy}
use g_io_t_edge_gateway.Middleware.Authentication.{
  AuthMethod, Decoders, admitted, authenticate, unauthorized,
}
use g_io_t_edge_gateway.Middleware.Authentication.KeyLife.{key_header, key_life}
use g_io_t_edge_gateway.Prelude.{
  List, Option, String, [], arith, contains, if◌then◌else◌, nat_eq, none, refl, some, string_eq, ℕ,
  ◌==◌, ◌∷◌, ◌≡◌,
}
use g_io_t_edge_gateway.Dict.{Dict, lookup}
use g_io_t_edge_gateway.Redis.InMemory.{Cell, in_memory, in_memory-laws, read}
use g_io_t_edge_gateway.Middleware.RateLimiter.{
  Request, Response, Settings, effective_limit, get_client_role, key_of,
}
use g_io_t_edge_gateway.Middleware.RateLimiter.Quota.{accepted, quota, serve}
use g_io_t_edge_gateway.Middleware.AuthService.{Meta, MetaJson, create_api_key, revoke_api_key}

abbrev fine : Request → Dict String Cell → Dict String Cell × Option Response
fine q d = (d, some (record { status_code = 200; headers = [] }))

abbrev get_reading : Request
get_reading = record { path = "/api/readings"; user = none; host = some "10.0.0.7" }

abbrev settings : Settings
settings = record { rate_limit_requests = 2; rate_limit_window_seconds = 60 }

abbrev requests : List (ℕ × Request)
requests = (1000000, get_reading) ∷ (2000000, get_reading) ∷ (3000000, get_reading) ∷ []

quota_example : accepted in_memory fine (serve in_memory fine settings [] requests) ≡ 2
unfolding read lookup effective_limit contains get_client_role key_of
quota_example =
    quota in_memory fine in_memory-laws settings 0
      (key_of in_memory fine settings 1000000 get_reading) 2 0 0 [] requests (omega arith)
      (λ q d. ((record { status_code = 200; headers = [] }, refl, refl), λ t. refl))
      (λ later late there. refl)
      (
        omega arith,
        refl,
        refl,
        refl,
        refl,
        (omega arith, refl, refl, refl, refl, (omega arith, refl, refl, refl, refl, tt)),
      )

abbrev encode : Meta → String
encode m = m.name

abbrev json : MetaJson
json = record {
  dumps = encode;
  loads = λ t.
      if t == "sensor"
      then some (record { key_id = "1"; name = "sensor"; role = "device" })
      else none;
}

-- The decoder of the middleware for the same encoding.
abbrev decoders : Decoders
decoders = record {
  decode_token = λ t. none;
  loads = λ t.
      if t == "sensor"
      then some (record { key_id = some "1"; name = some "sensor"; role = some "device" })
      else none;
}

key_life_example :
    let d₁ = (create_api_key in_memory json 0 1 [] "1" "secret" "sensor" "device").0 in
    let d₂ = (revoke_api_key in_memory json 2 3 d₁ "1").0 in
    (authenticate in_memory decoders 2 d₁ "/api/readings" (some (key_header "secret"))
      ≡ admitted (record {
        sub = some "sensor";
        role = "device";
        auth_method = AuthMethod.api_key;
        key_id = some "1";
      }))
    × (authenticate in_memory decoders 5 d₂ "/api/readings" (some (key_header "secret"))
        ≡ unauthorized "Invalid API key")
unfolding contains
key_life_example =
    key_life in_memory decoders in_memory-laws json 0 1 2 2 3 5 [] "/api/readings" "1" "secret"
      "sensor" "device" (omega arith) (omega arith) (omega arith) (omega arith) (omega arith) refl
      refl

-- Lower case, as far as the tests go.
abbrev lower : String → String
lower s = if s == "X-Forwarded-For" then "x-forwarded-for" else s

abbrev proxied : ProxyRequest lower
proxied = record {
  method = "GET";
  base = "http://device-manager";
  path = "devices/d1";
  query = "";
  headers = ("host", "gateway") ∷ ("accept", "text/html") ∷ ("x-forwarded-for", "10.0.0.1") ∷ [];
  correlation_id = some "c1";
  client = some "10.0.0.2";
  body = "";
}

forwarded_chain_lost_example :
    (lookup "X-Forwarded-For" (proxy lower proxied).headers ≡ some "10.0.0.2")
    × (lookup "x-forwarded-for" (proxy lower proxied).headers
        ≡ last_value lower "x-forwarded-for" proxied.headers)
forwarded_chain_lost_example =
    forwarded_chain_lost lower proxied (refl, (refl, (refl, tt))) refl refl
