-- ===== src/Session/Validation.antt =====
-- The checks of `SessionService` on its inputs (app/shared/session/service.py).
use iot_server.Prelude.{
  ℕ, String, Bool, false, Option, none, some, List, [], ◌∷◌, map, ltb, leb, str_eq, ◌==◌, ◌||◌,
  if◌then◌else◌,
}
use iot_server.Prelude.Lists.{length}
use iot_server.Http.{Result, ok, err, invalid_input}
use iot_server.Session.Security.{Bytes, HmacLibrary}

abbrev pub Metadata : Type 0
Metadata = List (String × String)

pub record Settings : Type 0 where
  pub session_ttl_seconds : ℕ
  pub metadata_max_keys : ℕ
  pub metadata_max_size_bytes : ℕ

-- What the checks take from Python's library: `UUID`, `str.strip`, `str.casefold`, `ip_address`, and
-- `json.dumps` with the length in UTF-8 of what it returns; `none` and `false` stand for a ValueError.
pub record Library : Type 0 where
  pub parse_uuid : String → Option String
  pub strip : String → String
  pub casefold : String → String
  pub is_ip_address : String → Bool
  pub dumped_size : Metadata → Option ℕ

abbrev pub key_session_expected_bytes : ℕ
key_session_expected_bytes = 32

abbrev pub metadata_forbidden_keys : List String
metadata_forbidden_keys =
    "password" ∷ "password_hash" ∷ "secret" ∷ "private_key" ∷ "key_session" ∷ "api_key" ∷ []

pub data EntityId : Type 0 where
  uuid : String → EntityId
  other : String → EntityId

abbrev pub or_invalid : {A : Type 0} → Option A → Result A
or_invalid none = err invalid_input
or_invalid (some a) = ok a

unfoldable pub validate_entity_id : Library → EntityId → Result String
validate_entity_id lib (uuid s) = ok s
validate_entity_id lib (other s) = or_invalid (lib.parse_uuid s)

abbrev pub check : Bool → Result (Unit {0})
check b = if b then ok tt else err invalid_input

unfoldable pub key_length_ok : Option Bytes → Bool
key_length_ok none = false
key_length_ok (some b) = length b == key_session_expected_bytes

unfoldable pub validate_key_session : HmacLibrary → String → Result (Unit {0})
unfolding key_length_ok
validate_key_session hl key_session =
    if str_eq key_session ""
    then err invalid_input
    else check (key_length_ok (hl.urlsafe_b64decode key_session))

unfoldable pub validate_ip_address : Library → String → Result (Unit {0})
validate_ip_address lib ip =
    if str_eq ip "" || str_eq (lib.strip ip) ""
    then err invalid_input
    else check (lib.is_ip_address (lib.strip ip))

unfoldable pub contains : String → List String → Bool
contains k [] = false
contains k (j ∷ ks) = str_eq k j || contains k ks

-- `metadata_keys_lower & forbidden_keys_lower` is not empty.
unfoldable pub has_forbidden : Library → Metadata → Bool
unfolding contains
has_forbidden lib [] = false
has_forbidden lib ((k, x) ∷ rest) =
    contains (lib.casefold k) (map lib.casefold metadata_forbidden_keys) || has_forbidden lib rest

unfoldable pub fits : ℕ → Option ℕ → Bool
fits limit none = false
fits limit (some n) = leb n limit

unfoldable pub validate_metadata : Library → Settings → Option Metadata → Result Metadata
unfolding has_forbidden fits
validate_metadata lib st none = ok []
validate_metadata lib st (some m) =
    if ltb st.metadata_max_keys (length m)
    then err invalid_input
    else if has_forbidden lib m
    then err invalid_input
    else if fits st.metadata_max_size_bytes (lib.dumped_size m)
    then ok m
    else err invalid_input
