-- ===== src/Onboarding.antt =====
-- app/domain/onboarding/service.py: registration and the verification of an e-mail address, on the
-- columns that the login reads. New ids, the salt and the token are arguments; the message that carries
-- the token is left out.
pub mod Verified
pub mod Routes
use Prim.Native.String.{◌++◌}
use iot_server.Prelude.{
  ℕ, ◌*◌, String, Bool, true, false, Option, none, some, List, [], ◌∷◌, str_eq, if◌then◌else◌,
}
use iot_server.Valkey.{Valkey, Cell}
use iot_server.Http.{Exec, ok, err, already_exists, bad_request}
use iot_server.E2e.Crypto.{CryptoLibrary, hash_password}
use iot_server.E2e.Login.{NonCriticalPersonalData, SensitiveData, Human, Db, by_email, by_id}

abbrev pub token_ttl : ℕ
token_ttl = 86400

unfoldable pub token_key : String → String
token_key token = "onboarding:verify:" ++ token

-- What a registration draws.
pub record Drawn : Type 0 where
  pub non_critical_id : String
  pub sensitive_id : String
  pub administrator_id : String
  pub salt : String
  pub token : String

pub record Site (S : Type 0) : Type 0 where
  pub db : Db
  pub store : S

-- `Session.get` and the change of `is_active`.
unfoldable pub activate : String → List NonCriticalPersonalData → List NonCriticalPersonalData
activate id [] = []
activate id (n ∷ rest) =
    let later = activate id rest in
    if str_eq n.id id then record n { is_active = true } ∷ rest else n ∷ later

module _ (lib : CryptoLibrary) where
  -- The three rows of a new account, and the setter of `password`.
  unfoldable pub with_account : Drawn → String → String → Db → Db
  unfolding hash_password
  with_account drawn email password db = record db {
    non_critical = record { id = drawn.non_critical_id; is_active = false } ∷ db.non_critical;
    sensitive =
        record {
          id = drawn.sensitive_id;
          non_critical_data_id = drawn.non_critical_id;
          email = email;
          password_hash = hash_password lib password drawn.salt;
          password_salt = drawn.salt;
        }
        ∷ db.sensitive;
    administrators =
        record {
          id = drawn.administrator_id;
          sensitive_data_id = drawn.sensitive_id;
          is_master = false;
        }
        ∷ db.administrators;
  }

  module _ (v : Valkey) (now : ℕ) where
    unfoldable pub store_token : String → String → v.Store → v.Store
    store_token token non_critical_id s = v.setex now (token_key token) token_ttl non_critical_id s

    unfoldable pub register_unless :
        Drawn → String → String → Option SensitiveData → Exec (Site v.Store) String
    unfolding with_account store_token
    register_unless drawn email password (some d) s = (err (already_exists "Account"), s)
    register_unless drawn email password none s = (
      ok drawn.token,
      record {
        db = with_account drawn email password s.db;
        store = store_token drawn.token drawn.non_critical_id s.store;
      },
    )

    -- `OnboardingService.register`
    unfoldable pub register : Drawn → String → String → Exec (Site v.Store) String
    unfolding register_unless
    register drawn email password s =
        register_unless drawn email password (by_email email s.db.sensitive) s

    abbrev pub no_token : {A : Type 0} → Exec (Site v.Store) A
    no_token s = (err (bad_request "Invalid or expired verification token"), s)

    unfoldable pub verify_row :
        String → String → Option NonCriticalPersonalData → Exec (Site v.Store) (Unit {0})
    unfolding activate
    verify_row token id none s = (err (bad_request "Account not found"), s)
    verify_row token id (some n) s =
        let db = s.db in
        (
          ok tt,
          record {
            db = record db { non_critical = activate id db.non_critical };
            store = v.delete now (token_key token) s.store;
          },
        )

    unfoldable pub verify_cell : String → Option Cell → Exec (Site v.Store) (Unit {0})
    unfolding verify_row
    verify_cell token none s = no_token s
    verify_cell token (some c) s = verify_row token c.value (by_id c.value s.db.non_critical) s

    -- `OnboardingService.verify`; the stored text is the id that `str` wrote.
    unfoldable pub verify : String → Exec (Site v.Store) (Unit {0})
    unfolding verify_cell
    verify token s = verify_cell token (v.cell now (token_key token) s.store) s
