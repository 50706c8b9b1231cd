-- ===== src/Session/Security.antt =====
-- app/shared/session/security.py. Base64, HMAC-SHA256, UTF-8, JWE and JSON are libraries: parameters.
use Prim.Native.Char.{code}
use Prim.Native.String.{◌++◌}
use iot_server.Prelude.{
  ℕ, ◌+◌, ◌*◌, ◌≡◌, String, Bool, false, Option, none, some, List, [], ◌∷◌, ltb, str_eq, ◌==◌, ◌&&◌,
  if◌then◌else◌,
}
use iot_server.Prelude.Lists.{length}
use iot_server.Http.{Result, ok, err, python}

abbrev pub Bytes : Type 0
Bytes = List ℕ

pub record HmacLibrary : Type 0 where
  pub urlsafe_b64decode : String → Option Bytes
  pub urlsafe_b64encode : Bytes → String
  pub utf8 : String → Bytes
  pub hmac_sha256 : Bytes → Bytes → Bytes

is_empty : String → Bool
is_empty s = str_eq s ""

-- Python's `rstrip("=")`.
unfoldable pub rstrip_padding : String → String
unfolding is_empty
rstrip_padding String.[] = ""
rstrip_padding (String.◌∷◌ c s) =
    let rest = rstrip_padding s in if is_empty rest && code c == b'=' then "" else String.◌∷◌ c rest

unfoldable pub compute_hmac : HmacLibrary → String → String → String → Result String
compute_hmac lib session_id payload key_session = elim (lib.urlsafe_b64decode key_session) [
  | none ↦ err (python "ValueError")
  | some key ↦
      let message = lib.utf8 (session_id ++ (":" ++ payload)) in
      ok (rstrip_padding (lib.urlsafe_b64encode (lib.hmac_sha256 key message)))
]

-- `secrets.compare_digest` on a tag of ASCII characters; on others it raises a TypeError, and the request
-- fails instead of being refused.
unfoldable pub compare_tag : String → Result String → Result Bool
compare_tag tag (ok expected) = ok (str_eq tag expected)
compare_tag tag (err e) = err e

unfoldable pub verify_hmac : HmacLibrary → String → String → String → String → Result Bool
unfolding compare_tag
verify_hmac lib session_id payload tag key_session =
    compare_tag tag (compute_hmac lib session_id payload key_session)

-- The claims of a token: a JSON object.
pub data Json : Type 0 where
  null : Json
  bool : Bool → Json
  number : ℕ → Json
  text : String → Json

abbrev pub Claims : Type 0
Claims = List (String × Json)

unfoldable pub claim : String → Claims → Option Json
claim k [] = none
claim k ((j, x) ∷ rest) = if str_eq k j then some x else claim k rest

-- `{**claims, k: x}`
unfoldable pub with_claim : String → Json → Claims → Claims
with_claim k x [] = (k, x) ∷ []
with_claim k x ((j, y) ∷ rest) = if str_eq k j then (k, x) ∷ rest else (j, y) ∷ with_claim k x rest

-- `jose.jwe` under one key, with `json.dumps` before it and `json.loads` after it: what was
-- encrypted under a key is decrypted under it. `none` is a JWEError.
pub record JweLibrary : Type 0 where
  pub b64decode : String → Option Bytes
  pub jwe_encrypt : Bytes → Claims → String
  pub jwe_decrypt : Bytes → String → Option Claims
  pub decrypt-encrypt : (key : Bytes) (c : Claims) → jwe_decrypt key (jwe_encrypt key c) ≡ some c

-- `JWEHandler.__init__`: the key, or a ValueError.
unfoldable pub jwe_handler : JweLibrary → String → Result Bytes
jwe_handler lib encryption_key = elim (lib.b64decode encryption_key) [
  | none ↦ err (python "ValueError")
  | some key ↦ if length key == 32 then ok key else err (python "ValueError")
]

unfoldable pub verify_expiration : ℕ → Option Json → Bool
verify_expiration now none = false
verify_expiration now (some null) = false
verify_expiration now (some (bool b)) = if b then ltb now 1 else false
verify_expiration now (some (number exp)) = if exp == 0 then false else ltb now exp
verify_expiration now (some (text _)) = false

unfoldable pub encrypt : JweLibrary → Bytes → ℕ → Claims → ℕ → String
unfolding with_claim
encrypt lib key now claims ttl_minutes =
    lib.jwe_encrypt key
      (with_claim "iat" (number now) (with_claim "exp" (number (now + ttl_minutes * 60)) claims))

-- The checks of `decrypt` on what was decrypted.
unfoldable pub unexpired : ℕ → Option Claims → Result Claims
unfolding verify_expiration claim
unexpired now none = err (python "JWEError")
unexpired now (some claims) =
    if verify_expiration now (claim "exp" claims) then ok claims else err (python "JWEError")

unfoldable pub decrypt : JweLibrary → Bytes → ℕ → String → Result Claims
unfolding unexpired
decrypt lib key now token = unexpired now (lib.jwe_decrypt key token)
