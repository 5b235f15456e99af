-- ===== src/Middleware/RateLimiter.antt =====
-- middleware_layers/rate_limiter.py. Times are microseconds; the rest of the stack (`call_next`)
-- is a parameter, whose answer is `none` where it raises.
pub mod Quota
use Prim.Native.String.{◌++◌ as str_append}
use g_io_t_edge_gateway.Prelude.{
  List, Option, String, [], contains, if◌then◌else◌, ltb, max, nat_eq, none, some, string_eq, ℕ,
  ◌*◌, ◌+◌, ◌-◌, ◌/◌, ◌==◌, ◌∷◌,
}
use g_io_t_edge_gateway.Dict.{Dict, insert}
use g_io_t_edge_gateway.Redis.{Redis, counted, second}

-- `request.state.user` with its entries `sub` and `role`.
pub record User : Type 0 where
  pub sub : Option String
  pub role : Option String

pub record Request : Type 0 where
  pub path : String
  pub user : Option User
  pub host : Option String

pub record Response : Type 0 where
  pub status_code : ℕ
  pub headers : Dict String String

pub record Settings : Type 0 where
  pub rate_limit_requests : ℕ
  pub rate_limit_window_seconds : ℕ

abbrev pub rate_limit_excluded : List String
rate_limit_excluded = "/health" ∷ "/ready" ∷ "/health/dependencies" ∷ []

-- `ROLE_LIMIT_MULTIPLIERS.get(role, 1.0)`; the multipliers are whole.
abbrev pub multiplier : String → ℕ
multiplier role =
    if role == "admin" then 5 else if role == "user" then 1 else if role == "device" then 2 else 1

abbrev pub host_id : Option String → String
host_id none = "ip:unknown"
host_id (some host) = str_append "ip:" host

unfoldable pub get_client_id : Request → String
get_client_id request = elim request.user [
  | none ↦ host_id request.host
  | some user ↦ elim user.sub [
    | none ↦ host_id request.host
    | some sub ↦ if sub == "" then host_id request.host else str_append "user:" sub
  ]
]

unfoldable pub get_client_role : Request → String
get_client_role request = elim request.user [
  | none ↦ "user"
  | some user ↦ elim user.role [ none ↦ "user" | some role ↦ role ]
]

unfoldable pub effective_limit : Settings → Request → ℕ
effective_limit settings request =
    settings.rate_limit_requests * multiplier (get_client_role request)

-- `int(time.time()) // window`. A window of 0 seconds raises in the code; it is no setting.
abbrev pub window_of : Settings → ℕ → ℕ
window_of settings now = now / second / settings.rate_limit_window_seconds

module _ (r : Redis) (call_next : Request → r.Db → r.Db × Option Response) where
  open r use {Db, number, incr, expire}

  unfoldable pub key_of : Settings → ℕ → Request → String
  key_of settings now request =
      str_append "ratelimit:"
        (str_append (get_client_id request) (str_append ":" (number (window_of settings now))))

  abbrev pub rate_headers : ℕ → ℕ → ℕ → Dict String String → Dict String String
  rate_headers limit remaining reset headers = insert "X-RateLimit-Reset" (number reset) (
      insert "X-RateLimit-Remaining" (number remaining)
        (insert "X-RateLimit-Limit" (number limit) headers))

  -- The end of the window in seconds.
  abbrev pub reset_of : Settings → ℕ → ℕ
  reset_of settings now =
      window_of settings now * settings.rate_limit_window_seconds
      + settings.rate_limit_window_seconds

  -- The answer 429; the body's text is left out.
  too_many : Settings → ℕ → ℕ → ℕ → Response
  too_many settings limit now later = record {
    status_code = 429;
    headers =
        rate_headers limit 0 (reset_of settings now)
          (("Retry-After", number (max (reset_of settings now - later / second) 1)) ∷ []);
  }

  -- The end of `try`: a response gets the headers. The `except` clause also takes what
  -- `call_next` raises, and then calls it again.
  abbrev pub finish : Settings → ℕ → ℕ → ℕ → Request → Db × Option Response → Db × Option Response
  finish settings limit count now request (d, some response) = (
    d,
    some (record response {
      headers = rate_headers limit (limit - count) (reset_of settings now) response.headers;
    }),
  )
  finish settings limit count now request (d, none) = call_next request d

  -- After the count, at the times of EXPIRE and of the second `time.time()`.
  unfoldable pub after_count : Settings → ℕ → ℕ → ℕ → Request → Db × ℕ → Db × Option Response
  unfolding too_many
  after_count settings t₀ t₂ t₃ request (d, count) =
      let limit = effective_limit settings request in
      let d' =
        if count == 1
        then expire t₂ d (key_of settings t₀ request) (settings.rate_limit_window_seconds + 1)
        else d in
      if ltb limit count
      then (d', some (too_many settings limit t₀ t₃))
      else finish settings limit count t₀ request (call_next request d')

  -- `dispatch`, with the times of its two `time.time()` (the first and the last) and of its two
  -- Redis requests. An error of INCR lets the request pass; EXPIRE on a key that INCR has just
  -- written does not fail.
  unfoldable pub dispatch : Settings → ℕ → ℕ → ℕ → ℕ → Db → Request → Db × Option Response
  unfolding after_count
  dispatch settings t₀ t₁ t₂ t₃ d request =
      if contains request.path rate_limit_excluded
      then call_next request d
      else elim (incr t₁ d (key_of settings t₀ request)) [
        | none ↦ call_next request d
        | some counted ↦ after_count settings t₀ t₂ t₃ request counted
      ]
