-- ===== src/Client.antt =====
-- http/e2e.py: the client of the encrypted protocol. The session file is read as it was written, calls
-- of the server and random values are arguments, and what is printed is left out but for responses.
pub mod Connected
pub mod Requests
pub mod Runner
pub mod Execute
pub mod Run
pub mod Report
pub mod Verdict
use Prim.Native.String.{◌++◌}
use iot_server.Prelude.{
  ℕ, ◌≡◌, String, Bool, true, false, Option, none, some, List, [], ◌∷◌, str_eq, ◌==◌, not, ◌||◌,
  ◌&&◌, if◌then◌else◌,
}
use iot_server.Http.{
  Exec, Result, ok, err, Exception, python, ◌>>=◌, ◌>>◌, pure, gets, modify, or_raise, raise_if,
}
use iot_server.E2e.Crypto.{Bytes, CryptoLibrary, sha256_hex, aes_encrypt, aes_decrypt}
use iot_server.E2e.Login.{LoginJson}

pub record SessionFile : Type 0 where
  pub session_id : String
  pub session_key : String
  pub base_url : String

-- The session file and the state of the server.
pub record World (S : Type 0) : Type 0 where
  pub file : Option SessionFile
  pub server : S

-- A request as `_http` makes it; every caller gives an upper-case method.
pub record HttpCall : Type 0 where
  pub method : String
  pub url : String
  pub data_bytes : Option Bytes
  pub headers : List (String × String)

-- `urllib`: the status and body, or none if the server is out of reach.
abbrev pub Network : Type 0 → Type 0
Network S = HttpCall → S → Option (ℕ × Bytes) × S

-- The JSON texts of the handshake, and what each end reads of the other's.
pub record Messages (lj : LoginJson) : Type 0 where
  pub is_json : Bytes → Bool
  pub dump_challenge : String × String → Bytes
  pub read_salt : Bytes → Option String
  pub dump_login : String → String → String → String → Bytes
  pub dump_random2 : String → Bytes
  pub dump_sealed : String × String → Bytes
  pub read_sealed : Bytes → Option (String × String)
  pub dump_detail : String → Bytes
  -- the random text and the session id of a reply
  pub read_reply : Bytes → Option (String × String)
  pub read_salt-dump_challenge : (c : String × String) → read_salt (dump_challenge c) ≡ some c.0
  pub read_random2-dump_random2 :
      (random2 : String) → lj.read_random2 (dump_random2 random2) ≡ some random2
  pub read_sealed-dump_sealed : (p : String × String) → read_sealed (dump_sealed p) ≡ some p
  pub read_reply-dump_reply :
      (random3 session_id : String)
      → read_reply (lj.dump_reply random3 session_id) ≡ some (random3, session_id)

abbrev pub system_exit : Exception
system_exit = python "SystemExit"

unfoldable pub connected : Option (ℕ × Bytes) → Result (ℕ × Bytes)
connected none = err system_exit
connected (some reply) = ok reply

abbrev pub content_type : String × String
content_type = ("Content-Type", "application/json")

module _ {S : Type 0} (net : Network S) where
  unfoldable pub http_call :
      String → String → Option Bytes → List (String × String) → Exec (World S) (ℕ × Bytes)
  unfolding connected
  http_call method url body extra_headers w =
      let (reply, s) =
        net
          (record {
            method = method;
            url = url;
            data_bytes = body;
            headers = content_type ∷ extra_headers;
          })
          w.server in
      (connected reply, record w { server = s })

unfoldable pub save_session : {S : Type 0} → String → String → String → Exec (World S) (Unit {0})
save_session session_id session_key base_url w = (
  ok tt,
  record w {
    file =
        some (record { session_id = session_id; session_key = session_key; base_url = base_url });
  },
)

unfoldable pub require_session : {S : Type 0} → Exec (World S) SessionFile
require_session w = or_raise w.file system_exit w

unfoldable pub clear_session : {S : Type 0} → Exec (World S) (Unit {0})
clear_session w = (ok tt, record w { file = none })

unfoldable pub url_of : String → Option SessionFile → String
url_of default_url none = default_url
url_of default_url (some f) = f.base_url

-- What `cmd_login` draws.
pub record ClientDraw : Type 0 where
  pub random_hex : String
  pub random2 : String
  pub iv : Bytes

module _ (lib : CryptoLibrary) (lj : LoginJson) (messages : Messages lj) {S : Type 0}
    (net : Network S) (email password base_url : String) (drawn : ClientDraw) where
  unfoldable pub temp_key : String → Bytes
  unfolding sha256_hex
  temp_key salt =
      let inner_sha256 = sha256_hex lib password in
      let salted_hash = sha256_hex lib (salt ++ inner_sha256) in
      lib.hkdf (some (lib.utf8 salt)) "iotmx-temp-key-v2"
        (lib.utf8 (salted_hash ++ drawn.random_hex))

  -- A status other than 200 prints the JSON of the reply and exits.
  unfoldable pub require_200 : ℕ × Bytes → Exec (World S) (Unit {0})
  require_200 reply =
      raise_if (not (reply.0 == 200))
        (if messages.is_json reply.1 then system_exit else python "JSONDecodeError")

  unfoldable pub decode_both : Option Bytes → Option Bytes → Option (Bytes × Bytes)
  decode_both (some ct) (some iv) = some (ct, iv)
  decode_both none iv = none
  decode_both (some ct) none = none

  unfoldable pub keep_session : String × String → Exec (World S) (Unit {0})
  unfolding save_session
  keep_session (random3, session_id) =
      save_session session_id
        (lib.hex (lib.hkdf none "iotmx-session-key-v2" (lib.utf8 (drawn.random2 ++ random3))))
        base_url

  unfoldable pub open_reply : Bytes → String × String → Exec (World S) (Unit {0})
  unfolding decode_both keep_session
  open_reply key (payload, iv) = do
    parts ←
        or_raise (decode_both (lib.b64decode payload) (lib.b64decode iv)) (python "binascii.Error")
    inner ← or_raise (aes_decrypt lib parts.0 key parts.1) (python "InvalidTag")
    reply ← or_raise (messages.read_reply inner) (python "KeyError")
    keep_session reply

  unfoldable pub login_with : String → Exec (World S) (Unit {0})
  unfolding open_reply require_200 http_call
  login_with salt = do
    ct ←
        or_raise (aes_encrypt lib (messages.dump_random2 drawn.random2) (temp_key salt) drawn.iv)
          (python "ValueError")
    reply ←
        http_call net "POST" (base_url ++ "/api/v1/auth/login")
          (some (
            messages.dump_login email (lib.b64encode ct) drawn.random_hex (lib.b64encode drawn.iv)))
          []
    require_200 reply
    sealed ← or_raise (messages.read_sealed reply.1) (python "KeyError")
    open_reply (temp_key salt) sealed

  unfoldable pub cmd_login : Exec (World S) (Unit {0})
  unfolding login_with require_200 http_call
  cmd_login = do
    reply ← http_call net "GET" (base_url ++ ("/api/v1/auth/challenge?email=" ++ email)) none []
    require_200 reply
    salt ← or_raise (messages.read_salt reply.1) (python "KeyError")
    login_with salt
