-- ===== src/E2e/Middleware.antt =====
-- `E2EMiddleware.dispatch` of app/shared/e2e/middleware.py.
use iot_server.Prelude.{
  ℕ, ◌*◌, String, Bool, true, false, Option, none, some, List, [], ◌∷◌, str_eq, ltb, ◌||◌,
  if◌then◌else◌,
}
use iot_server.Prelude.Lists.{length}
use iot_server.Valkey.{Valkey}
use iot_server.Http.{Exec, ok, err, python, continue, ◌>>=◌}
use iot_server.E2e.Crypto.{Bytes, CryptoLibrary, aes_encrypt, aes_decrypt}
use iot_server.E2e.SessionStore.{Account, E2ESession, SessionJson, get_session}

pub record Request : Type 0 where
  pub path : String
  pub method : String
  -- the header X-Session-ID
  pub session_header : Option String
  pub content_length : Option String
  pub body : Bytes

-- What a client receives: a body as the handler gave it, the two texts of an encrypted one, or the
-- detail of an error.
pub data Content : Type 0 where
  raw : Bytes → Content
  envelope : String → String → Content
  detail : String → Content

pub record Response : Type 0 where
  pub status : ℕ
  pub headers : List (String × String)
  pub content : Content

-- The answer of a route handler.
pub record Answer : Type 0 where
  pub status : ℕ
  pub headers : List (String × String)
  pub body : Bytes

-- Python's `int` on a header, `str.lower`, `str.startswith`, and `json.loads` with the two keys of an
-- envelope.
pub record Parsing : Type 0 where
  pub int : String → Option ℕ
  pub lower : String → String
  pub starts_with : String → String → Bool
  pub read_envelope : Bytes → Option (String × String)

abbrev pub max_body_size : ℕ
max_body_size = 1 * 1024 * 1024

abbrev pub public_paths : List String
public_paths =
    "/docs" ∷ "/openapi.json" ∷ "/redoc" ∷ "/health" ∷ "/ready" ∷ "/metrics" ∷ "/api/v1/auth/login"
    ∷ "/api/v1/auth/challenge" ∷ "/api/v1/onboarding/register" ∷ "/api/v1/onboarding/verify" ∷ []

unfoldable pub one_of : String → List String → Bool
one_of p [] = false
one_of p (q ∷ qs) = str_eq p q || one_of p qs

unfoldable pub is_public : Parsing → String → Bool
unfolding one_of
is_public parse path =
    one_of path public_paths || parse.starts_with path "/docs" || parse.starts_with path "/redoc"

abbrev pub error_response : ℕ → String → Response
error_response status text = record { status = status; headers = []; content = detail text }

abbrev pub as_is : Answer → Response
as_is a = record { status = a.status; headers = a.headers; content = raw a.body }

-- The headers of an answer without its length. Python holds them in a dict, which keeps one of several
-- headers of the same name; here they have different names.
unfoldable pub without_length : Parsing → List (String × String) → List (String × String)
without_length parse [] = []
without_length parse ((k, x) ∷ rest) =
    let kept = without_length parse rest in
    if str_eq (parse.lower k) "content-length" then kept else (k, x) ∷ kept

-- What becomes of the body before the handler sees it.
pub data Inbound : Type 0 where
  deliver : Bytes → Inbound
  refuse : Response → Inbound
  crash : Inbound

module _ (lib : CryptoLibrary) (parse : Parsing) where
  -- `_decrypt_body`: any exception is `none`.
  unfoldable pub decrypt_parts : Bytes → Option Bytes → Option Bytes → Option Bytes
  decrypt_parts key none iv = none
  decrypt_parts key (some ciphertext) none = none
  decrypt_parts key (some ciphertext) (some iv) = aes_decrypt lib ciphertext key iv

  unfoldable pub open_envelope : Bytes → String → String → Option Bytes
  unfolding decrypt_parts
  open_envelope key payload_b64 iv_b64 =
      decrypt_parts key (lib.b64decode payload_b64) (lib.b64decode iv_b64)

  unfoldable pub decrypt_envelope : Bytes → Option (String × String) → Option Bytes
  decrypt_envelope key none = none
  decrypt_envelope key (some (payload, iv)) = open_envelope key payload iv

  unfoldable pub decrypt_body : Bytes → Bytes → Option Bytes
  unfolding decrypt_envelope
  decrypt_body body key = decrypt_envelope key (parse.read_envelope body)

  unfoldable pub delivered : Option Bytes → Inbound
  delivered none = refuse (error_response 400 "Invalid encrypted payload")
  delivered (some plain) = deliver plain

  unfoldable pub decrypted : Bytes → Bytes → Inbound
  unfolding delivered
  decrypted key [] = deliver []
  decrypted key (b ∷ bs) = delivered (decrypt_body (b ∷ bs) key)

  unfoldable pub sized_body : Bytes → Bytes → Inbound
  unfolding decrypted
  sized_body key body =
      if ltb max_body_size (length body)
      then refuse (error_response 413 "Request body too large")
      else decrypted key body

  -- A header that is no number makes `int` raise.
  unfoldable pub checked_length : Bytes → Bytes → Option ℕ → Inbound
  unfolding sized_body
  checked_length key body none = crash
  checked_length key body (some n) =
      if ltb max_body_size n
      then refuse (error_response 413 "Request body too large")
      else sized_body key body

  unfoldable pub declared_length : Bytes → Bytes → Option String → Inbound
  unfolding checked_length
  declared_length key body none = sized_body key body
  declared_length key body (some text) =
      if str_eq text "" then sized_body key body else checked_length key body (parse.int text)

  unfoldable pub inbound : Bytes → Request → Inbound
  unfolding declared_length
  inbound key r =
      if str_eq r.method "POST" || str_eq r.method "PUT" || str_eq r.method "PATCH"
      then declared_length key r.body r.content_length
      else deliver r.body

  unfoldable pub enveloped : Bytes → Answer → Option Bytes → Option Response
  enveloped iv a none = none
  enveloped iv a (some ciphertext) = some (record {
    status = a.status;
    headers = without_length parse a.headers;
    content = envelope (lib.b64encode ciphertext) (lib.b64encode iv);
  })

  unfoldable pub outbound : Bytes → Bytes → Answer → Option Response
  unfolding enveloped
  outbound key iv a = enveloped iv a (aes_encrypt lib a.body key iv)

module _ (lib : CryptoLibrary) (parse : Parsing) (v : Valkey) (json : SessionJson) (now : ℕ)
    -- the route handlers, which see the account and the body, and the nonce that is drawn
    (call_next : Option Account → Bytes → Exec v.Store Answer) (iv : Bytes) where
  unfoldable pub sealed : Option Response → Exec v.Store Response
  sealed none s = (err (python "ValueError"), s)
  sealed (some r) s = (ok r, s)

  unfoldable pub handled : Bytes → Account → Inbound → Exec v.Store Response
  unfolding sealed
  handled key account (refuse r) s = (ok r, s)
  handled key account crash s = (err (python "ValueError"), s)
  handled key account (deliver body) s =
      continue (λ answer. sealed (outbound lib parse key iv answer))
        (call_next (some account) body s)

  unfoldable pub with_key : Request → Account → Option Bytes → Exec v.Store Response
  unfolding handled
  with_key r account none s = (err (python "ValueError"), s)
  with_key r account (some key) s = handled key account (inbound lib parse key r) s

  unfoldable pub with_session : Request → Option E2ESession → Exec v.Store Response
  unfolding with_key
  with_session r none s = (ok (error_response 401 "Invalid or expired session"), s)
  with_session r (some session) s = with_key r session.account (lib.from_hex session.session_key) s

  unfoldable pub unchanged : Option Account → Bytes → Exec v.Store Response
  unchanged account body = do answer ← call_next account body; (λ s. (ok (as_is answer), s))

  -- The look-up of a session; Valkey may be out of reach.
  unfoldable pub looked_up : Bool → Request → String → Exec v.Store Response
  unfolding with_session
  looked_up false r session_id s = (ok (error_response 503 "Session service unavailable"), s)
  looked_up true r session_id s = continue (with_session r) (get_session v json now session_id s)

  unfoldable pub by_header : Bool → Request → Option String → Exec v.Store Response
  unfolding looked_up unchanged
  by_header up r none = unchanged none r.body
  by_header up r (some session_id) =
      if str_eq session_id "" then unchanged none r.body else looked_up up r session_id

  unfoldable pub dispatch : Bool → Request → Exec v.Store Response
  unfolding by_header
  dispatch up r =
      if is_public parse r.path then unchanged none r.body else by_header up r r.session_header
