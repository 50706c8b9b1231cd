-- ===== src/Tests/Protocol.antt =====
-- The theorems on the encrypted protocol and the login at concrete inputs.
use iot_server.Prelude.{
  inl, ◌≡◌, refl, arith, String, true, false, Option, none, some, [], ◌∷◌, str_eq,
}
use iot_server.Valkey.Memory.{memory, no_cells}
use iot_server.Http.{Exec, ok}
use iot_server.E2e.Crypto.{aes_encrypt, Bytes, derive_session_key}
use iot_server.E2e.SessionStore.{
  Account, E2ESession, create_session, get_session, replace_session, renew_session,
}
use iot_server.E2e.Middleware.{Request, Response, Answer, is_public, one_of, dispatch}
use iot_server.E2e.Traffic.{received, IsSealed, dispatch-session}
use iot_server.E2e.Renewal.{get-create, renew-live, renew_twice}
use iot_server.E2e.Login.{
  SensitiveData, Human, Db, Resolved, Draw, by_sensitive_id, accepted, is_active, resolve_username,
  temp_key_of, account_context, decrypt_parts, login,
}
use iot_server.E2e.Handshake.{login-honest}
use iot_server.E2e.Resolution.{IsResolved, resolve_sound}
use iot_server.Tests.Encoding.{write_bytes}
use iot_server.Tests.Libraries.{crypto, parsing, login_json, session_json, zeros}

abbrev holder : Account
holder = record {
  account_id = "a1";
  sensitive_data_id = "s1";
  account_type = "user";
  email = "u@x";
  is_master = false;
  auth_method = "e2e";
}

abbrev key : Bytes
key = zeros 32

abbrev session : E2ESession
session = record {
  session_id = "sid";
  session_key = write_bytes key;
  account = holder;
  created_at = 5;
}

abbrev stored : memory.Store
stored = (create_session memory session_json 5 "sid" (write_bytes key) holder 60 no_cells).1

live : get_session memory session_json 9 "sid" stored ≡ (ok (some session), stored)
live =
    (get-create memory session_json 5 9 60 "sid" (write_bytes key) holder no_cells (omega arith)
      (omega arith) (omega arith)).1

renew-live_example :
    let (reply, s') = renew_session memory session_json 9 "sid" "new" 60 stored in
    (reply ≡ ok (some "new"))
    × (get_session memory session_json 20 "new" s'
        ≡ (ok (some (record session { session_id = "new" })), s'))
    × (get_session memory session_json 20 "sid" s' ≡ (ok none, s'))
renew-live_example =
    renew-live memory session_json 9 20 60 "sid" "new" session stored (omega arith) (omega arith)
      (omega arith) refl live

renew_twice_example :
    let s₁ = (replace_session memory session_json 9 "sid" "n1" 60 (some session) stored).1 in
    let s₂ = (replace_session memory session_json 9 "sid" "n2" 60 (some session) s₁).1 in
    (get_session memory session_json 9 "n1" s₂
      ≡ (ok (some (record session { session_id = "n1" })), s₂))
    × (get_session memory session_json 9 "n2" s₂
        ≡ (ok (some (record session { session_id = "n2" })), s₂))
renew_twice_example =
    renew_twice memory session_json 9 60 "sid" "n1" "n2" session stored (omega arith) refl refl live

-- A handler that answers 200 with the body that it got.
abbrev echo : Option Account → Bytes → Exec memory.Store Answer
echo _ body s = (ok (record { status = 200; headers = []; body = body }), s)

abbrev post : Request
post = record {
  path = "/api/v1/devices";
  method = "POST";
  session_header = some "sid";
  content_length = none;
  body = 1 ∷ 2 ∷ [];
}

private_path : is_public parsing "/api/v1/devices" ≡ false
unfolding is_public one_of
private_path = refl

body-IsSealed : IsSealed crypto parsing key (1 ∷ 2 ∷ []) (1 ∷ 2 ∷ [])
unfolding aes_encrypt
body-IsSealed = (zeros 12, 1 ∷ 2 ∷ [], refl, refl)

dispatch-session_example :
    (answer : Response) × (dispatch crypto parsing memory session_json 9 echo
        (zeros 12)
        true
        post
        stored
      ≡ (ok answer, stored))
    × (received crypto parsing key answer ≡ some (200, 1 ∷ 2 ∷ []))
dispatch-session_example =
    dispatch-session crypto parsing memory session_json 9 echo (zeros 12) post "sid" session key
      (1 ∷ 2 ∷ []) 1 (2 ∷ []) (record { status = 200; headers = []; body = 1 ∷ 2 ∷ [] }) stored
      stored private_path refl refl live refl refl refl refl (inl refl) refl (omega arith)
      body-IsSealed refl

gone : get_session memory session_json 9 "sid" no_cells ≡ (ok none, no_cells)
unfolding get_session
gone = refl

abbrev row : SensitiveData
row = record {
  id = "s1";
  non_critical_data_id = "n1";
  email = "u@x";
  password_hash = "h";
  password_salt = "salt";
}

abbrev human : Human
human = record { id = "a1"; sensitive_data_id = "s1"; is_master = true }

abbrev db : Db
db = record {
  non_critical = record { id = "n1"; is_active = true } ∷ [];
  sensitive = row ∷ [];
  administrators = human ∷ [];
  managers = [];
  users = [];
}

abbrev resolved : Resolved
resolved = record {
  entity = human;
  data_row = row;
  account_type = "administrator";
  is_master = true;
}

known : resolve_username db "u@x" ≡ ok (some resolved)
unfolding resolve_username by_sensitive_id accepted is_active
known = refl

unknown : resolve_username db "v@x" ≡ ok none
unfolding resolve_username
unknown = refl

resolve-sound_example : (str_eq "u@x" "u@x" ≡ true) × IsResolved db row resolved
resolve-sound_example = resolve_sound db "u@x" resolved known

abbrev draw : Draw
draw = record { random3 = "r3"; session_id = "sid"; iv = zeros 12 }

login-honest_example :
    (reply : String) × (s' : memory.Store) × (login crypto login_json memory session_json 60 5 draw
        db "u@x"
        (write_bytes (1 ∷ []))
        "hex"
        (write_bytes (zeros 12))
        no_cells
      ≡ (ok (reply, write_bytes (zeros 12)), s'))
    × (decrypt_parts crypto login_json
          (temp_key_of crypto login_json row "hex")
          (crypto.b64decode reply)
          (some (zeros 12))
        ≡ some (1 ∷ []))
    × (get_session memory session_json 9 "sid" s' ≡ (
      ok (
          some (record {
            session_id = "sid";
            session_key = write_bytes (derive_session_key crypto (write_bytes (1 ∷ [])) "r3");
            account = account_context crypto login_json resolved;
            created_at = 5;
          })),
      s',
    ))
login-honest_example =
    login-honest crypto login_json memory session_json 60 5 draw 9 db "u@x" "hex"
      (write_bytes (1 ∷ [])) resolved (zeros 12) (1 ∷ []) (1 ∷ []) no_cells (omega arith)
      (omega arith) (omega arith) known refl refl refl refl
