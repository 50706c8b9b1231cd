-- ===== src/Tests/Sessions.antt =====
-- The theorems on sessions, tokens and limits at concrete inputs.
use iot_server.Prelude.{
  ◌+◌, ◌≡◌, refl, arith, String, false, none, some, [], ◌∷◌, if◌then◌else◌, ltb, min,
}
use iot_server.Valkey.{Cell}
use iot_server.Valkey.Memory.{memory, no_cells}
use iot_server.Http.{ok, err, session_not_found, python}
use iot_server.Session.Models.{EntitySessionData}
use iot_server.Session.Keys.{entity_key, index_key, rate_limit_storage_key}
use iot_server.Session.Repository.{
  store_entity_session, delete_entity_session, touch_entity_session, get_entity_session_by_id,
}
use iot_server.Session.Consistency.{IsConsistent, empty-IsConsistent}
use iot_server.Session.History.{
  here, next, create, wait, Reach-IsConsistent, lookup_after_store, touch_after_remove,
}
use iot_server.Session.Validation.{
  uuid, validate_entity_id, validate_key_session, validate_ip_address, validate_metadata,
}
use iot_server.Session.Service.{create_entity_session, process_encrypted_request}
use iot_server.Session.Security.{compute_hmac, rstrip_padding, Claims, text, encrypt, decrypt}
use iot_server.Session.Tokens.{decrypt-encrypt, stamped}
use iot_server.Session.Requests.{session_lifetime}
use iot_server.RateLimit.Window.{slot, tally, admitted, admitted_in_window}
use iot_server.RateLimit.{enforce_limit, increment_rate_limit, counted, over_limit}
use iot_server.Tests.Encoding.{write_bytes}
use iot_server.Tests.Libraries.{entity_codec, hmac_library, jwe_library, checks, settings, zeros}

-- A session key of 32 bytes.
abbrev key_text : String
key_text = write_bytes (zeros 32)

abbrev device : EntitySessionData
device = record {
  session_id = "sid";
  entity_id = "dev";
  key_session = key_text;
  ip_address = "10.0.0.1";
  metadata = [];
  created_at = 5;
  last_activity = 5;
}

-- The server after the session of the device was made at second 5.
abbrev stored : memory.Store
stored = (store_entity_session memory entity_codec 5 device 60 no_cells).1

abbrev device_cell : Cell
device_cell = record { value = entity_codec.dump device; deadline = some 65 }

abbrev tag : String
tag = write_bytes (7 ∷ [])

valid_id : validate_entity_id checks (uuid "dev") ≡ ok "dev"
unfolding validate_entity_id
valid_id = refl

valid_key : validate_key_session hmac_library key_text ≡ ok tt
unfolding validate_key_session
valid_key = refl

valid_ip : validate_ip_address checks "10.0.0.1" ≡ ok tt
unfolding validate_ip_address
valid_ip = refl

valid_metadata : validate_metadata checks settings none ≡ ok []
unfolding validate_metadata
valid_metadata = refl

tag_lem : compute_hmac hmac_library "sid" "data" key_text ≡ ok tag
unfolding compute_hmac rstrip_padding
tag_lem = refl

stored_cell : memory.cell 5 (entity_key "dev") stored ≡ some device_cell
unfolding store_entity_session entity_key index_key
stored_cell = refl

stored_lookup :
    get_entity_session_by_id memory entity_codec 5 "sid" stored ≡ (ok (some device), stored)
stored_lookup =
    (lookup_after_store memory entity_codec 5 60 5 device no_cells (omega arith) (omega arith) refl
      refl).1

session_lifetime_example :
    let (created, s') =
      create_entity_session memory entity_codec checks hmac_library settings 5 "sid"
        (uuid "dev")
        key_text
        "10.0.0.1"
        none
        no_cells in
    (created ≡ ok "sid")
    × ((process_encrypted_request memory entity_codec checks hmac_library settings 30 "sid" tag
          "data" s').0
        ≡ (if ltb 30 65 then ok key_text else err session_not_found))
session_lifetime_example =
    session_lifetime memory entity_codec checks hmac_library settings 5 30 "sid" "dev" key_text
      "10.0.0.1" tag "data" (uuid "dev") none [] no_cells valid_id valid_key valid_ip valid_metadata
      (omega arith) refl refl (omega arith) refl tag_lem

Reach-IsConsistent_example : IsConsistent memory entity_codec 70 stored
Reach-IsConsistent_example =
    Reach-IsConsistent memory entity_codec {now = 5} {s = no_cells}
      (empty-IsConsistent memory entity_codec 5 no_cells (λ k. refl))
      (next (next here (create device 60 (omega arith) refl refl)) (wait 70 (omega arith)))

touch_after_remove_example :
    let s₁ = (delete_entity_session memory entity_codec 5 "dev" stored).1 in
    let s₂ = (touch_entity_session memory entity_codec 6 device s₁).1 in
    (get_entity_session_by_id memory entity_codec 900 "sid" s₂ ≡ (ok none, s₂))
    × (store_entity_session memory entity_codec 900 device 60 s₂ ≡ (ok false, s₂))
touch_after_remove_example =
    touch_after_remove memory entity_codec 5 6 900 60 device device device_cell stored (omega arith)
      (omega arith) refl stored_cell refl

abbrev user_claims : Claims
user_claims = ("user_id", text "u1") ∷ []

decrypt-encrypt_example :
    decrypt jwe_library (zeros 32) 100 (encrypt jwe_library (zeros 32) 40 user_claims 5)
    ≡ (if ltb 100 (40 + 300) then ok (stamped 40 5 user_claims) else err (python "JWEError"))
decrypt-encrypt_example = decrypt-encrypt jwe_library (zeros 32) 40 100 5 user_claims (omega arith)

admitted_in_window_example :
    admitted memory "login:ip:h" 3 60 (10 ∷ 20 ∷ 30 ∷ 40 ∷ 50 ∷ []) no_cells ≡ min 3 5
admitted_in_window_example =
    admitted_in_window memory "login:ip:h" 3 60 10 (20 ∷ 30 ∷ 40 ∷ 50 ∷ []) no_cells (omega arith)
      refl
      (
        omega arith,
        omega arith,
        (omega arith, omega arith, (omega arith, omega arith, (omega arith, omega arith, tt))),
      )

-- The counter after one hit at second 10.
abbrev one_hit : memory.Store
one_hit = (enforce_limit memory 10 "login:ip:h" 3 60 no_cells).1

one_hit_lem : slot memory "login:ip:h" 10 one_hit ≡ tally memory "login:ip:h" 1 70
unfolding enforce_limit increment_rate_limit counted over_limit rate_limit_storage_key
one_hit_lem = refl
