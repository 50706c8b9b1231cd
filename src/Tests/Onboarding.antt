-- ===== src/Tests/Onboarding.antt =====
-- The theorems on the registration at concrete inputs.
use iot_server.Prelude.{◌≡◌, refl, arith, none, some, [], ◌∷◌}
use iot_server.Valkey.Memory.{memory, no_cells}
use iot_server.Http.{ok, err, already_exists}
use iot_server.E2e.Login.{Db, by_email, resolve_username}
use iot_server.Onboarding.{Drawn, Site, register, verify, no_token}
use iot_server.Onboarding.Verified.{new_account, verify-register, register-expired}
use iot_server.Tests.Libraries.{crypto}

abbrev db : Db
db = record {
  non_critical = [];
  sensitive =
      record {
        id = "s1";
        non_critical_data_id = "n1";
        email = "v@x";
        password_hash = "h";
        password_salt = "salt";
      }
      ∷ [];
  administrators = [];
  managers = [];
  users = [];
}

abbrev drawn : Drawn
drawn = record {
  non_critical_id = "n2";
  sensitive_id = "s2";
  administrator_id = "a2";
  salt = "grain";
  token = "t";
}

abbrev site : Site memory.Store
site = record { db = db; store = no_cells }

new_address : by_email "u@x" db.sensitive ≡ none
unfolding by_email
new_address = refl

verify-register_example :
    (s₁ : Site memory.Store) × (s₂ : Site memory.Store) × (register crypto memory 5 drawn "u@x" "pw"
        site
      ≡ (ok "t", s₁))
    × (resolve_username s₁.db "u@x" ≡ ok none)
    × (verify crypto memory 9 "t" s₁ ≡ (ok tt, s₂))
    × (resolve_username s₂.db "u@x" ≡ ok (some (new_account crypto drawn "u@x" "pw")))
    × (verify crypto memory 20 "t" s₂ ≡ no_token crypto memory 20 s₂)
verify-register_example =
    verify-register crypto memory drawn "u@x" "pw" 5 site 9 20 (omega arith) (omega arith)
      (omega arith) new_address

register-expired_example :
    (s₁ : Site memory.Store) × (register crypto memory 5 drawn "u@x" "pw" site ≡ (ok "t", s₁))
    × (verify crypto memory 90000 "t" s₁ ≡ no_token crypto memory 90000 s₁)
    × (register crypto memory 90000 drawn "u@x" "pw2" s₁ ≡ (err (already_exists "Account"), s₁))
register-expired_example =
    register-expired crypto memory drawn "u@x" "pw" 5 site 90000 drawn "pw2" (omega arith)
      new_address
