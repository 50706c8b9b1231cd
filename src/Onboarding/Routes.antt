-- ===== src/Onboarding/Routes.antt =====
-- app/domain/onboarding/controller.py: the two routes, which need no session. The checks of pydantic on the
-- lengths of the fields come before them.
use iot_server.Prelude.{ℕ, ◌≡◌, refl, String, some}
use iot_server.Valkey.{Valkey}
use iot_server.Http.{Exec, Result, ok, continue}
use iot_server.E2e.Crypto.{CryptoLibrary}
use iot_server.E2e.Login.{SensitiveData, by_email}
use iot_server.Onboarding.{Drawn, Site, register, register_unless, verify}

abbrev pub sent : String
sent = "If this email is not already registered, a verification link has been sent."

-- `except Exception: pass`
unfoldable pub whatever_happened :
    {S : Type 0} → String → Result String × S → Result (String × String) × S
whatever_happened email (r, s) = (ok (sent, email), s)

module _ (lib : CryptoLibrary) (v : Valkey) (now : ℕ) where
  -- the route `register`
  unfoldable pub register_route : Drawn → String → String → Exec (Site v.Store) (String × String)
  unfolding whatever_happened
  register_route drawn email password s =
      whatever_happened email (register lib v now drawn email password s)

  unfoldable pub verified_message : Unit {0} → Exec (Site v.Store) String
  verified_message u s = (ok "Email verified. Your account is now active.", s)

  -- the route `verify_email`
  unfoldable pub verify_route : String → Exec (Site v.Store) String
  unfolding verified_message
  verify_route token s = continue verified_message (verify lib v now token s)

  -- The answer to a registration does not tell whether the address had an account: a taken one is answered
  -- like any other, and nothing is written for it.
  pub register_route-taken :
      (drawn other : Drawn) (email password : String) (s s' : Site v.Store) {d : SensitiveData}
      → by_email email s.db.sensitive ≡ some d
      → (register_route drawn email password s ≡ ((register_route other email password s').0, s))
  unfolding register_route register register_unless whatever_happened
  register_route-taken drawn other email password s s' taken = rw taken refl
