-- ===== src/Tests/Libraries.antt =====
-- Concrete stand-ins for the libraries, each of which meets the laws that the theorems use.
use iot_server.Prelude.{
  ℕ, zero, suc, ◌≡◌, refl, sym, ap, ◌∙◌, String, Bool, true, false, Option, none, some, List, [],
  ◌∷◌, str_eq, str_ne, if◌then◌else◌,
}
use iot_server.Prelude.Lists.{length}
use iot_server.Valkey.Memory.{strokes, count_strokes, count_strokes-strokes}
use iot_server.Session.Models.{Loaded, loaded, value_error, Codec, EntitySessionData}
use iot_server.Session.Security.{HmacLibrary, Json, null, bool, number, text, Claims, JweLibrary}
use iot_server.Session.Validation.{Settings, Library}
use iot_server.E2e.Crypto.{CryptoLibrary}
use iot_server.E2e.SessionStore.{E2ESession, SessionJson}
use iot_server.E2e.Middleware.{Parsing}
use iot_server.E2e.Login.{LoginJson}
use iot_server.Tests.Encoding.{
  write_all, read_all, read-write, write-ne-empty, write_bytes, read_bytes, read-write-bytes,
}

abbrev flatten : List (String × String) → List String
flatten [] = []
flatten ((k, x) ∷ rest) = k ∷ x ∷ flatten rest

abbrev pairs : List String → List (String × String)
pairs [] = []
pairs (k ∷ []) = []
pairs (k ∷ x ∷ rest) = (k, x) ∷ pairs rest

pairs-flatten : (m : List (String × String)) → pairs (flatten m) ≡ m
pairs-flatten [] = refl
pairs-flatten ((k, x) ∷ rest) = ap (λ r. (k, x) ∷ r) (pairs-flatten rest)

abbrev pub entity_texts : EntitySessionData → List String
entity_texts d =
    d.entity_id
    ∷ d.key_session
    ∷ d.ip_address
    ∷ strokes d.created_at
    ∷ strokes d.last_activity
    ∷ flatten d.metadata

abbrev dump_entity : EntitySessionData → String
dump_entity d = write_all (d.session_id ∷ entity_texts d)

abbrev entity_of : List String → Loaded EntitySessionData
entity_of (a ∷ b ∷ c ∷ d ∷ e ∷ f ∷ rest) = loaded (record {
  session_id = a;
  entity_id = b;
  key_session = c;
  ip_address = d;
  metadata = pairs rest;
  created_at = count_strokes e;
  last_activity = count_strokes f;
})
entity_of _ = value_error

pub entity-dump : (d : EntitySessionData) → entity_of (read_all (dump_entity d)) ≡ loaded d
entity-dump d =
    ap entity_of (read-write (d.session_id ∷ entity_texts d))
    ∙ rw
        (
          pairs-flatten d.metadata,
          count_strokes-strokes d.created_at,
          count_strokes-strokes d.last_activity,
        )
        refl

abbrev pub entity_codec : Codec EntitySessionData
entity_codec = record {
  dump = dump_entity;
  load = λ s. entity_of (read_all s);
  load-dump = entity-dump;
  dump-ne-empty = λ d. write-ne-empty d.session_id (entity_texts d);
}

abbrev pub session_texts : E2ESession → List String
session_texts r =
    r.session_key
    ∷ strokes r.created_at
    ∷ r.account.account_id
    ∷ r.account.sensitive_data_id
    ∷ r.account.account_type
    ∷ r.account.email
    ∷ r.account.auth_method
    ∷ (if r.account.is_master then "1" else "0")
    ∷ []

abbrev dump_session : E2ESession → String
dump_session r = write_all (r.session_id ∷ session_texts r)

abbrev session_of : List String → Option E2ESession
session_of (a ∷ b ∷ c ∷ d ∷ e ∷ f ∷ g ∷ h ∷ i ∷ []) = some (record {
  session_id = a;
  session_key = b;
  created_at = count_strokes c;
  account = record {
    account_id = d;
    sensitive_data_id = e;
    account_type = f;
    email = g;
    auth_method = h;
    is_master = str_eq i "1";
  };
})
session_of _ = none

flag : (b : Bool) → str_eq (if b then "1" else "0") "1" ≡ b
flag true = refl
flag false = refl

pub session-dump : (r : E2ESession) → session_of (read_all (dump_session r)) ≡ some r
session-dump r =
    ap session_of (read-write (r.session_id ∷ session_texts r))
    ∙ rw (count_strokes-strokes r.created_at, flag r.account.is_master) refl

abbrev pub session_json : SessionJson
session_json = record {
  dumps = dump_session;
  loads = λ s. session_of (read_all s);
  loads-dumps = session-dump;
  dumps-ne-empty = λ r. str_ne _ _ (write-ne-empty r.session_id (session_texts r));
}

-- Every tag is the text of the session's key.
abbrev pub hmac_library : HmacLibrary
hmac_library = record {
  urlsafe_b64decode = read_bytes;
  urlsafe_b64encode = write_bytes;
  utf8 = λ s. 1 ∷ [];
  hmac_sha256 = λ key message. 7 ∷ [];
}

abbrev json_texts : Json → String × String
json_texts null = ("n", "")
json_texts (bool b) = ("b", if b then "1" else "0")
json_texts (number n) = ("i", strokes n)
json_texts (text s) = ("t", s)

abbrev json_of : String → String → Json
json_of kind s =
    if str_eq kind "b"
    then bool (str_eq s "1")
    else (if str_eq kind "i"
        then number (count_strokes s)
        else (if str_eq kind "t" then text s else null))

json-texts : (x : Json) → json_of (json_texts x).0 (json_texts x).1 ≡ x
json-texts null = refl
json-texts (bool b) = ap bool (flag b)
json-texts (number n) = ap number (count_strokes-strokes n)
json-texts (text s) = refl

abbrev claim_texts : Claims → List String
claim_texts [] = []
claim_texts ((k, x) ∷ rest) = k ∷ (json_texts x).0 ∷ (json_texts x).1 ∷ claim_texts rest

abbrev claims_of : List String → Claims
claims_of (k ∷ kind ∷ s ∷ rest) = (k, json_of kind s) ∷ claims_of rest
claims_of _ = []

pub claims-texts : (c : Claims) → claims_of (claim_texts c) ≡ c
claims-texts [] = refl
claims-texts ((k, x) ∷ rest) = rw (json-texts x, claims-texts rest) refl

abbrev pub jwe_library : JweLibrary
jwe_library = record {
  b64decode = read_bytes;
  jwe_encrypt = λ key c. write_all (claim_texts c);
  jwe_decrypt = λ key s. some (claims_of (read_all s));
  decrypt-encrypt = λ key c. ap some (ap claims_of (read-write (claim_texts c)) ∙ claims-texts c);
}

abbrev pub checks : Library
checks = record {
  parse_uuid = some;
  strip = λ s. s;
  casefold = λ s. s;
  is_ip_address = λ s. true;
  dumped_size = λ m. some (length m);
}

abbrev pub settings : Settings
settings = record {
  session_ttl_seconds = 60;
  metadata_max_keys = 10;
  metadata_max_size_bytes = 100;
}

abbrev pub zeros : ℕ → List ℕ
zeros zero = []
zeros (suc n) = 0 ∷ zeros n

abbrev pub crypto : CryptoLibrary
crypto = record {
  utf8 = λ s. 1 ∷ [];
  sha256_hexdigest = λ b. "d";
  hkdf = λ salt info ikm. zeros 32;
  gcm_encrypt = λ key iv p. some p;
  gcm_decrypt = λ key iv c. some c;
  hex = write_bytes;
  from_hex = read_bytes;
  b64encode = write_bytes;
  b64decode = read_bytes;
  hkdf-length = λ salt info ikm. refl;
  encrypts = λ key iv p k n. (p, refl);
  decrypt-encrypt = λ key iv p ct e. sym e;
  from_hex-hex = read-write-bytes;
  b64decode-b64encode = read-write-bytes;
}

abbrev pub parsing : Parsing
parsing = record {
  int = λ s. some (count_strokes s);
  lower = λ s. s;
  starts_with = λ s p. false;
  read_envelope = λ b. some (write_bytes b, write_bytes (zeros 12));
}

abbrev pub login_json : LoginJson
login_json = record {
  read_random2 = λ b. some (write_bytes b);
  dump_reply = λ random3 session_id. 1 ∷ [];
}
