-- ===== src/Client/Requests.antt =====
-- http/e2e.py: reading a response, `cmd_logout` and `cmd_request`.
use Prim.Native.String.{◌++◌}
use iot_server.Prelude.{
  ℕ, String, Bool, Option, none, some, List, [], ◌∷◌, str_eq, not, ◌||◌, ◌&&◌, if◌then◌else◌,
}
use iot_server.Http.{Exec, ok, err, python, ◌>>=◌, pure, or_raise}
use iot_server.E2e.Crypto.{Bytes, CryptoLibrary, aes_encrypt, aes_decrypt}
use iot_server.Client.{SessionFile, World, Network, http_call, require_session, clear_session}

-- `json.loads` on bytes, the values that it gives, and the two texts of an object that has both keys of
-- an envelope. `dump_envelope` is `json.dumps` on these two texts, `empty_object` on no key.
pub record Values : Type 1 where
  pub Value : Type 0
  pub loads : Bytes → Option Value
  pub is_none : Value → Bool
  pub envelope : Value → Option (String × String)
  pub dump_envelope : String × String → Bytes
  pub empty_object : Bytes

-- What `_decode_response` gives: no value, a value, or one of the two kinds of error.
pub data Decoded (J : Type 0) : Type 0 where
  no_content : Decoded J
  parsed : J → Decoded J
  raw_text : Bytes → Decoded J
  decryption_failed : Decoded J

-- The first component of what `_decode_response` returns.
unfoldable pub value_of : {J : Type 0} → Decoded J → Option J
value_of no_content = none
value_of (parsed j) = some j
value_of (raw_text b) = none
value_of decryption_failed = none

module _ (lib : CryptoLibrary) (values : Values) where
  open values use {Value, loads, is_none, envelope, dump_envelope, empty_object}

  unfoldable pub parsed_or_none : Value → Decoded Value
  parsed_or_none j = if is_none j then no_content else parsed j

  unfoldable pub loaded_plain : Option Value → Decoded Value
  unfolding parsed_or_none
  loaded_plain none = decryption_failed
  loaded_plain (some j) = parsed_or_none j

  unfoldable pub opened : Option Bytes → Decoded Value
  unfolding loaded_plain
  opened none = decryption_failed
  opened (some []) = no_content
  opened (some (b ∷ bs)) = loaded_plain (loads (b ∷ bs))

  unfoldable pub decrypt_both : Bytes → Option Bytes → Option Bytes → Option Bytes
  decrypt_both key (some ct) (some iv) = aes_decrypt lib ct key iv
  decrypt_both key none iv = none
  decrypt_both key (some ct) none = none

  unfoldable pub open_value : Bytes → Value → Option (String × String) → Decoded Value
  unfolding opened decrypt_both parsed_or_none
  open_value key j none = parsed_or_none j
  open_value key j (some (payload, iv)) =
      opened (decrypt_both key (lib.b64decode payload) (lib.b64decode iv))

  unfoldable pub decode_json : Option Bytes → Bytes → Option Value → Decoded Value
  unfolding open_value parsed_or_none
  decode_json key raw none = raw_text raw
  decode_json none raw (some j) = parsed_or_none j
  decode_json (some []) raw (some j) = parsed_or_none j
  decode_json (some (k ∷ ks)) raw (some j) = open_value (k ∷ ks) j (envelope j)

  -- `_decode_response`
  unfoldable pub decode_response : Option Bytes → Bytes → Decoded Value
  unfolding decode_json
  decode_response key [] = no_content
  decode_response key (b ∷ bs) = decode_json key (b ∷ bs) (loads (b ∷ bs))

  module _ {S : Type 0} (net : Network S) where
    abbrev pub session_header : SessionFile → List (String × String)
    session_header f = ("X-Session-ID", f.session_id) ∷ []

    -- What is printed of the reply.
    unfoldable pub cmd_logout : Exec (World S) (ℕ × Decoded Value)
    unfolding require_session clear_session http_call decode_response
    cmd_logout = do
      sess ← require_session
      key ← or_raise (lib.from_hex sess.session_key) (python "ValueError")
      reply ←
          http_call net "POST" (sess.base_url ++ "/api/v1/auth/logout") (some empty_object)
            (session_header sess)
      _ ← clear_session
      pure (reply.0, decode_response (some key) reply.1)

    abbrev pub has_body : String → Bool
    has_body method = str_eq method "POST" || str_eq method "PUT" || str_eq method "PATCH"

    unfoldable pub sealed : Bytes → Option Bytes → Exec (World S) (Option Bytes)
    sealed iv none w = (err (python "ValueError"), w)
    sealed iv (some ct) w = (ok (some (dump_envelope (lib.b64encode ct, lib.b64encode iv))), w)

    -- The envelope of a body, for a method that has one.
    unfoldable pub seal_body : Bytes → Bytes → String → String → Exec (World S) (Option Bytes)
    unfolding sealed
    seal_body key iv method body w =
        if has_body method && not (str_eq body "")
        then sealed iv (aes_encrypt lib (lib.utf8 body) key iv) w
        else (ok none, w)

    -- The reply, and the key that opens it; no body is given as the empty text.
    unfoldable pub send_sealed :
        Bytes → SessionFile → Bytes → String → String → String → Exec (World S) (ℕ × Bytes)
    unfolding seal_body http_call
    send_sealed iv sess key method path body = do
      req_body ← seal_body key iv method body
      http_call net method (sess.base_url ++ path) req_body (session_header sess)

    unfoldable pub cmd_request :
        Bytes → String → String → String → Exec (World S) (ℕ × Decoded Value)
    unfolding require_session send_sealed decode_response
    cmd_request iv method path body = do
      sess ← require_session
      key ← or_raise (lib.from_hex sess.session_key) (python "ValueError")
      reply ← send_sealed iv sess key method path body
      pure (reply.0, decode_response (some key) reply.1)
