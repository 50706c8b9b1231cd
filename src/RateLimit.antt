-- ===== src/RateLimit.antt =====
-- app/shared/rate_limit.py, and the counters of app/shared/session/repository.py. The documentation of
-- the module calls it a sliding window; the counter is one of a window that starts at its first hit.
pub mod Window
use Prim.Native.String.{◌++◌}
use iot_server.Prelude.{
  ℕ, zero, suc, ◌+◌, ◌≤◌, ◌<◌, ◌≡◌, String, Bool, true, false, Option, none, some, List, [], ◌∷◌,
  ltb, leb, str_eq, ◌==◌, max, max_zero, if◌then◌else◌,
}
use iot_server.Valkey.{Valkey, Cell, ttl}
use iot_server.Http.{Exec, Result, ok, err, python, too_many, continue, ◌>>=◌, ◌>>◌}
use iot_server.Session.Keys.{rate_limit_storage_key}

abbrev pub max_requests_default : ℕ
max_requests_default = 3

abbrev pub window_seconds_default : ℕ
window_seconds_default = 900

module _ (v : Valkey) (now : ℕ) where
  -- The reply of INCR: an error of the server is raised.
  unfoldable pub counted : String → ℕ → Option ℕ × v.Store → Result ℕ × v.Store
  counted key window (none, s) = (err (python "ResponseError"), s)
  counted key window (some n, s) = if n == 1 then (ok n, v.expire now key window s) else (ok n, s)

  unfoldable pub increment_rate_limit : String → ℕ → Exec v.Store ℕ
  unfolding counted
  increment_rate_limit rate_limit_key window s =
      let key = rate_limit_storage_key rate_limit_key in counted key window (v.incr now key s)

  unfoldable pub read_count : Option Cell → Result ℕ
  read_count none = ok 0
  read_count (some c) =
      if str_eq c.value ""
      then ok 0
      else elim (v.numerals.number c.value) [ none ↦ err (python "ValueError") | some n ↦ ok n ]

  unfoldable pub get_rate_limit : String → Exec v.Store ℕ
  unfolding read_count
  get_rate_limit rate_limit_key s =
      (read_count (v.cell now (rate_limit_storage_key rate_limit_key) s), s)

  unfoldable pub get_rate_limit_ttl : String → Exec v.Store ℕ
  get_rate_limit_ttl rate_limit_key s =
      (ok (max_zero (ttl now (v.cell now (rate_limit_storage_key rate_limit_key) s))), s)

  unfoldable pub reset_rate_limit : String → Exec v.Store (Unit {0})
  reset_rate_limit rate_limit_key s =
      (ok tt, v.delete now (rate_limit_storage_key rate_limit_key) s)

  unfoldable pub is_rate_limited : String → ℕ → Exec v.Store Bool
  unfolding get_rate_limit
  is_rate_limited rate_limit_key max_attempts = do
    count ← get_rate_limit rate_limit_key
    (λ s. (ok (leb max_attempts count), s))

  -- The dependency of both limiters, for the key of a request.
  unfoldable pub over_limit : String → ℕ → ℕ → Exec v.Store (Unit {0})
  unfolding get_rate_limit_ttl
  over_limit key max_requests count s =
      if ltb max_requests count
      then (let (r, s') = get_rate_limit_ttl key s in
          (elim r [ ok left ↦ err (too_many (max left 1)) | err e ↦ err e ], s'))
      else (ok tt, s)

  unfoldable pub enforce_limit : String → ℕ → ℕ → Exec v.Store (Unit {0})
  unfolding increment_rate_limit over_limit
  enforce_limit key max_requests window = do
    count ← increment_rate_limit key window
    over_limit key max_requests count

-- The request as the limiters read it: the first tag of its route, the account that a middleware set,
-- the address of its client.
pub record Request : Type 0 where
  pub first_tag : Option String
  pub account_id : Option String
  pub client_host : Option String

abbrev or_unknown : Option String → String
or_unknown none = "unknown"
or_unknown (some h) = h

-- `lower_hyphen` is `lower().replace(" ", "-")`.
unfoldable pub tag_scope : (String → String) → Option String → String
tag_scope lower_hyphen none = "global"
tag_scope lower_hyphen (some tag) = lower_hyphen tag

unfoldable pub subject : String → Request → Option String → String
subject scope r none = scope ++ (":ip:" ++ or_unknown r.client_host)
subject scope r (some id) =
    if str_eq id ""
    then scope ++ (":ip:" ++ or_unknown r.client_host)
    else scope ++ (":account:" ++ id)

unfoldable pub build_rate_limit_key : (String → String) → Request → String
unfolding tag_scope subject
build_rate_limit_key lower_hyphen r = subject (tag_scope lower_hyphen r.first_tag) r r.account_id

unfoldable pub enforce_request_rate_limit :
    (v : Valkey) → (String → String) → ℕ → Request → Exec v.Store (Unit {0})
unfolding build_rate_limit_key enforce_limit
enforce_request_rate_limit v lower_hyphen now r =
    enforce_limit v now (build_rate_limit_key lower_hyphen r) max_requests_default
      window_seconds_default

-- The dependency that `rate_limiter(max_requests, window_seconds, scope)` returns.
unfoldable pub rate_limiter : (v : Valkey) → ℕ → ℕ → String → ℕ → Request → Exec v.Store (Unit {0})
unfolding enforce_limit
rate_limiter v max_requests window scope now r =
    enforce_limit v now (scope ++ (":ip:" ++ or_unknown r.client_host)) max_requests window
