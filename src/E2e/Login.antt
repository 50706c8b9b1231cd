-- ===== src/E2e/Login.antt =====
-- app/domain/auth/service.py: `LoginService`, on the tables that it reads. Random values are arguments.
use iot_server.Prelude.{
  ℕ, String, Bool, true, false, Option, none, some, List, [], ◌∷◌, str_eq, ◌&&◌, if◌then◌else◌,
}
use iot_server.Valkey.{Valkey}
use iot_server.Http.{Exec, Result, ok, err, python, bad_request}
use iot_server.E2e.Crypto.{
  Bytes, CryptoLibrary, aes_encrypt, aes_decrypt, derive_temp_key, derive_session_key,
}
use iot_server.E2e.SessionStore.{Account, SessionJson, create_session}

-- Rows of app/database/model.py, as far as the login reads them.
pub record NonCriticalPersonalData : Type 0 where
  pub id : String
  pub is_active : Bool

pub record SensitiveData : Type 0 where
  pub id : String
  pub non_critical_data_id : String
  pub email : String
  pub password_hash : String
  pub password_salt : String

-- An administrator, a manager or a user; only administrators have `is_master`.
pub record Human : Type 0 where
  pub id : String
  pub sensitive_data_id : String
  pub is_master : Bool

pub record Db : Type 0 where
  pub non_critical : List NonCriticalPersonalData
  pub sensitive : List SensitiveData
  pub administrators : List Human
  pub managers : List Human
  pub users : List Human

unfoldable pub by_email : String → List SensitiveData → Option SensitiveData
by_email email [] = none
by_email email (d ∷ ds) = if str_eq d.email email then some d else by_email email ds

unfoldable pub by_sensitive_id : String → List Human → Option Human
by_sensitive_id id [] = none
by_sensitive_id id (h ∷ hs) =
    if str_eq h.sensitive_data_id id then some h else by_sensitive_id id hs

unfoldable pub by_id : String → List NonCriticalPersonalData → Option NonCriticalPersonalData
by_id id [] = none
by_id id (d ∷ ds) = if str_eq d.id id then some d else by_id id ds

-- The property `is_active` of app/database/format.py; the foreign key makes the row exist, and without
-- it Python raises an AttributeError.
unfoldable pub is_active : Db → SensitiveData → Result Bool
unfolding by_id
is_active db d = elim (by_id d.non_critical_data_id db.non_critical) [
  | none ↦ err (python "AttributeError")
  | some n ↦ ok n.is_active
]

pub record Resolved : Type 0 where
  pub entity : Human
  pub data_row : SensitiveData
  pub account_type : String
  pub is_master : Bool

-- An account that was found counts if it is active.
unfoldable pub accepted : Result Bool → Resolved → Result (Option Resolved)
accepted (err e) r = err e
accepted (ok active) r = ok (if active then some r else none)

unfoldable pub choose :
    Db
    → SensitiveData
    → String
    → Bool
    → Option Human
    → Result (Option Resolved)
    → Result (Option Resolved)
choose db d account_type has_master none later = later
choose db d account_type has_master (some h) later = accepted (is_active db d) (record {
  entity = h;
  data_row = d;
  account_type = account_type;
  is_master = has_master && h.is_master;
})

-- The loop over `_HUMAN_MODELS`: the first table with a row for the credentials decides.
unfoldable pub first_model :
    Db → SensitiveData → List (String × Bool × List Human) → Result (Option Resolved)
unfolding choose
first_model db d [] = ok none
first_model db d ((account_type, has_master, table) ∷ rest) =
    let later = first_model db d rest in
    choose db d account_type has_master (by_sensitive_id d.id table) later

abbrev pub human_models : Db → List (String × Bool × List Human)
human_models db =
    ("administrator", true, db.administrators)
    ∷ ("manager", false, db.managers)
    ∷ ("user", false, db.users)
    ∷ []

unfoldable pub resolve_found : Db → Option SensitiveData → Result (Option Resolved)
unfolding first_model
resolve_found db none = ok none
resolve_found db (some d) = first_model db d (human_models db)

unfoldable pub resolve_username : Db → String → Result (Option Resolved)
unfolding by_email resolve_found
resolve_username db username = resolve_found db (by_email username db.sensitive)

-- The salt and nonce of `get_challenge`; both random texts are drawn by the method.
unfoldable pub get_challenge : Db → String → String → String → String × String
unfolding by_email
get_challenge db random_salt random_hex email = elim (by_email email db.sensitive) [
  | none ↦ (random_salt, random_hex)
  | some d ↦ (d.password_salt, random_hex)
]

-- The JSON texts of the handshake.
pub record LoginJson : Type 0 where
  -- `json.loads(plaintext.decode("utf-8"))["random2"]`
  pub read_random2 : Bytes → Option String
  -- `json.dumps({"random3": …, "session-id": …}).encode()`
  pub dump_reply : String → String → Bytes

abbrev pub invalid_credentials : {A : Type 0} → Result A
invalid_credentials = err (bad_request "Invalid credentials")

module _ (lib : CryptoLibrary) (lj : LoginJson) where
  -- The client's secret, if its message decrypts under the temporary key; any exception is `none`.
  unfoldable pub decrypt_parts : Bytes → Option Bytes → Option Bytes → Option Bytes
  decrypt_parts key none iv = none
  decrypt_parts key (some ciphertext) none = none
  decrypt_parts key (some ciphertext) (some iv) = aes_decrypt lib ciphertext key iv

  unfoldable pub read_inner : Option Bytes → Option String
  read_inner none = none
  read_inner (some plaintext) = lj.read_random2 plaintext

  unfoldable pub client_random : Bytes → String → String → Option String
  unfolding decrypt_parts read_inner
  client_random temp_key payload_b64 iv_b64 =
      read_inner (decrypt_parts temp_key (lib.b64decode payload_b64) (lib.b64decode iv_b64))

  unfoldable pub temp_key_of : SensitiveData → String → Bytes
  temp_key_of d random_hex = derive_temp_key lib d.password_hash random_hex d.password_salt

  unfoldable pub account_context : Resolved → Account
  account_context r = record {
    account_id = r.entity.id;
    sensitive_data_id = r.data_row.id;
    account_type = r.account_type;
    email = r.data_row.email;
    is_master = r.is_master;
    auth_method = "e2e";
  }

-- What the method draws: the second half of the session key, the session id and a nonce.
pub record Draw : Type 0 where
  pub random3 : String
  pub session_id : String
  pub iv : Bytes

module _ (lib : CryptoLibrary) (lj : LoginJson) (v : Valkey) (json : SessionJson)
    (session_ttl now : ℕ) (draw : Draw) where
  unfoldable pub reply : Option Bytes → Result (String × String)
  reply none = err (python "ValueError")
  reply (some ciphertext) = ok (lib.b64encode ciphertext, lib.b64encode draw.iv)

  unfoldable pub open_session : Resolved → Bytes → Option String → Exec v.Store (String × String)
  unfolding reply
  open_session r temp_key none s = (invalid_credentials, s)
  open_session r temp_key (some random2) s =
      if str_eq random2 ""
      then (invalid_credentials, s)
      else (let key = derive_session_key lib random2 draw.random3 in
          let (_, s') =
            create_session v json now draw.session_id (lib.hex key) (account_context lib lj r)
              session_ttl s in
          (
            reply (aes_encrypt lib (lj.dump_reply draw.random3 draw.session_id) temp_key draw.iv),
            s',
          ))

  unfoldable pub login_resolved :
      String → String → String → Result (Option Resolved) → Exec v.Store (String × String)
  unfolding open_session
  login_resolved payload_b64 random_hex iv_b64 (err e) s = (err e, s)
  login_resolved payload_b64 random_hex iv_b64 (ok none) s = (invalid_credentials, s)
  login_resolved payload_b64 random_hex iv_b64 (ok (some r)) s =
      let temp_key = temp_key_of lib lj r.data_row random_hex in
      open_session r temp_key (client_random lib lj temp_key payload_b64 iv_b64) s

  unfoldable pub login : Db → String → String → String → String → Exec v.Store (String × String)
  unfolding login_resolved
  login db username payload_b64 random_hex iv_b64 =
      login_resolved payload_b64 random_hex iv_b64 (resolve_username db username)
