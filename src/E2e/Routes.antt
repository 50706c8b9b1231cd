-- ===== src/E2e/Routes.antt =====
-- app/domain/auth/controller.py: the routes of the login, over `LoginService` and the sessions. The router
-- has `enforce_request_rate_limit` run before each of them: `challenge_route` and `login_route` are with
-- it, `logout` and `renew_route` are the bodies of their routes.
use Prim.Native.String.{◌++◌}
use iot_server.Prelude.{ℕ, String, Option, none, some, str_eq, ◌==◌, if◌then◌else◌}
use iot_server.Valkey.{Valkey}
use iot_server.Http.{Exec, Result, ok, err, Exception, http, too_many, python, continue}
use iot_server.E2e.Crypto.{CryptoLibrary}
use iot_server.E2e.SessionStore.{SessionJson, delete_session, renew_session}
use iot_server.E2e.Login.{Db, LoginJson, Draw, get_challenge, login}
use iot_server.RateLimit.{Request, enforce_request_rate_limit}

-- A BadRequestException becomes a 401 with its text, which `str` writes with the status; other
-- exceptions pass.
unfoldable pub as_unauthorized : Exception → Exception
as_unauthorized (http status detail) =
    if status == 400 then http 401 ("400: " ++ detail) else http status detail
as_unauthorized (too_many seconds) = too_many seconds
as_unauthorized (python name) = python name

unfoldable pub unauthorized : {S A : Type 0} → Result A × S → Result A × S
unfolding as_unauthorized
unauthorized (ok a, s) = (ok a, s)
unauthorized (err e, s) = (err (as_unauthorized e), s)

-- The dependencies of `auth_router`: the limiter, which keeps its counters where the sessions are.
module _ (v : Valkey) (lower_hyphen : String → String) (now : ℕ) (request : Request) where
  unfoldable pub limited : {A : Type 0} → Exec v.Store A → Exec v.Store A
  limited route s = continue (λ _. route) (enforce_request_rate_limit v lower_hyphen now request s)

  -- the route `challenge`
  unfoldable pub challenge_route : Db → String → String → String → Exec v.Store (String × String)
  unfolding limited
  challenge_route db random_salt nonce email =
      limited (λ s. (ok (get_challenge db random_salt nonce email), s))

module _ (lib : CryptoLibrary) (lj : LoginJson) (v : Valkey) (json : SessionJson)
    (session_ttl now : ℕ) (draw : Draw) (lower_hyphen : String → String) (request : Request) where
  -- the route `login`
  unfoldable pub login_route :
      Db → String → String → String → String → Exec v.Store (String × String)
  unfolding unauthorized limited
  login_route db username payload random iv =
      limited v lower_hyphen now request
        λ s. unauthorized (login lib lj v json session_ttl now draw db username payload random iv s)

abbrev missing_header : Exception
missing_header = http 400 "Missing X-Session-ID header"

module _ (v : Valkey) (json : SessionJson) (now : ℕ) where
  unfoldable pub logout_session : String → Exec v.Store String
  logout_session session_id =
      if str_eq session_id ""
      then (λ s. (err missing_header, s))
      else (λ s. (ok "Logged out successfully", (delete_session v json now session_id s).1))

  -- the route `logout`, on the header of the request
  unfoldable pub logout : Option String → Exec v.Store String
  unfolding logout_session
  logout none s = (err missing_header, s)
  logout (some session_id) s = logout_session session_id s

  unfoldable pub renewed : Option String → Exec v.Store String
  renewed none s = (err (http 401 "Session not found or already expired"), s)
  renewed (some new_id) s = (ok new_id, s)

  unfoldable pub renew_header : ℕ → String → String → Exec v.Store String
  unfolding renewed
  renew_header ttl new_id session_id s =
      if str_eq session_id ""
      then (err missing_header, s)
      else continue renewed (renew_session v json now session_id new_id ttl s)

  -- the route `renew_session`
  unfoldable pub renew_route : ℕ → String → Option String → Exec v.Store String
  unfolding renew_header
  renew_route ttl new_id none s = (err missing_header, s)
  renew_route ttl new_id (some session_id) s = renew_header ttl new_id session_id s
