-- ===== src/E2e/Traffic.antt =====
-- The traffic of a session through `E2EMiddleware` (app/shared/e2e/middleware.py), as its client sees it.
use iot_server.Prelude.{
  ℕ, ◌≤◌, ◌≡◌, refl, ap, ◌∙◌, String, true, false, Option, none, some, [], ◌∷◌, str_eq, ltb, ◌||◌,
  ◌⊎◌, arith, Bool-cases, inl, inr,
}
use iot_server.Prelude.Lists.{length}
use iot_server.Valkey.{Valkey}
use iot_server.Http.{Exec, ok}
use iot_server.E2e.Crypto.{Bytes, CryptoLibrary, aes_encrypt, aes_decrypt}
use iot_server.E2e.SessionStore.{Account, E2ESession, SessionJson, get_session}
use iot_server.E2e.Middleware.{
  Request, Response, Answer, Parsing, Content, envelope, raw, detail, deliver, is_public,
  open_envelope, inbound, outbound, by_header, dispatch, error_response, max_body_size,
  without_length, decrypt_body, decrypted, delivered, sized_body, checked_length, declared_length,
}

module _ (lib : CryptoLibrary) (parse : Parsing) where
  -- What the client sees of an encrypted answer: its status and the decrypted body.
  abbrev with_status : ℕ → Option Bytes → Option (ℕ × Bytes)
  with_status status none = none
  with_status status (some b) = some (status, b)

  abbrev opened : Bytes → ℕ → Content → Option (ℕ × Bytes)
  opened key status (envelope payload iv) =
      with_status status (open_envelope lib parse key payload iv)
  opened key status (raw _) = none
  opened key status (detail _) = none

  abbrev pub received : Bytes → Response → Option (ℕ × Bytes)
  received key r = opened key r.status r.content

  -- What is sealed for a session opens to the handler's answer.
  received-outbound :
      (key iv : Bytes) (a : Answer)
      → length key ≡ 32
      → length iv ≡ 12
      → (r : Response) × (outbound lib parse key iv a ≡ some r)
        × (received key r ≡ some (a.status, a.body))
  unfolding outbound open_envelope aes_encrypt aes_decrypt
  received-outbound key iv a k n =
      let (ct, e) = lib.encrypts key iv a.body k n in
      (
        record {
          status = a.status;
          headers = without_length parse a.headers;
          content = envelope (lib.b64encode ct) (lib.b64encode iv);
        },
        rw e,
        rw (
          lib.b64decode-b64encode,
          lib.b64decode-b64encode,
          lib.decrypt-encrypt key iv a.body ct e,
        ),
      )

  -- How a body may become the plaintext `plain`.
  abbrev pub Arrives : Bytes → Bytes → Bytes → Type 0
  Arrives key body plain =
      ((body ≡ []) × (plain ≡ []))
      ⊎ ((length body ≤ max_body_size) × (decrypt_body lib parse body key ≡ some plain))

  -- The request has no length header, or one with a number within the limit.
  abbrev pub IsDeclared : Option String → Type 0
  IsDeclared header =
      (header ≡ none)
      ⊎ ((text : String) × (n : ℕ) × (header ≡ some text)
          × (parse.int text ≡ some n)
          × (n ≤ max_body_size))

  -- The body is the envelope of what the client encrypts under the key.
  abbrev pub IsSealed : Bytes → Bytes → Bytes → Type 0
  IsSealed key plain body =
      (nonce : Bytes) × (ct : Bytes) × (aes_encrypt lib plain key nonce ≡ some ct)
      × (parse.read_envelope body ≡ some (lib.b64encode ct, lib.b64encode nonce))

  decrypt_body-sealed :
      (key plain body : Bytes)
      → IsSealed key plain body
      → decrypt_body lib parse body key ≡ some plain
  unfolding decrypt_body open_envelope aes_encrypt aes_decrypt
  decrypt_body-sealed key plain body (nonce, ct, e, reads) =
      rw
        (
          reads,
          lib.b64decode-b64encode,
          lib.b64decode-b64encode,
          lib.decrypt-encrypt key nonce plain ct e,
        )
        refl

  sized_body-sealed :
      (key plain : Bytes) (b : ℕ) (bs : Bytes)
      → length (b ∷ bs) ≤ max_body_size
      → IsSealed key plain (b ∷ bs)
      → sized_body lib parse key (b ∷ bs) ≡ deliver plain
  unfolding sized_body decrypted delivered
  sized_body-sealed key plain b bs le enc =
      elim (Bool-cases (ltb max_body_size (length (b ∷ bs)))) [
        | inl big ↦ absurd (ground arith)
        | inr small ↦ rw (small, decrypt_body-sealed key plain (b ∷ bs) enc) refl
      ]

  declared_length-sealed :
      (key plain : Bytes) (b : ℕ) (bs : Bytes) (header : Option String)
      → IsDeclared header
      → length (b ∷ bs) ≤ max_body_size
      → IsSealed key plain (b ∷ bs)
      → declared_length lib parse key (b ∷ bs) header ≡ deliver plain
  unfolding declared_length checked_length
  declared_length-sealed key plain b bs header (inl absent) le enc =
      rw absent (sized_body-sealed key plain b bs le enc)
  declared_length-sealed key plain b bs header (inr (text, n, present, reads, small)) le enc =
      rw present (elim (Bool-cases (str_eq text "")) [
        | inl blank ↦ rw blank (sized_body-sealed key plain b bs le enc)
        | inr given ↦
            rw (given, reads)
              (elim (Bool-cases (ltb max_body_size n)) [
                | inl big ↦ absurd (ground arith)
                | inr fits ↦ rw fits (sized_body-sealed key plain b bs le enc)
              ])
      ])

  inbound-sealed :
      (key plain : Bytes) (r : Request) (b : ℕ) (bs : Bytes)
      → str_eq r.method "POST" || str_eq r.method "PUT" || str_eq r.method "PATCH" ≡ true
      → IsDeclared r.content_length
      → r.body ≡ b ∷ bs
      → length (b ∷ bs) ≤ max_body_size
      → IsSealed key plain (b ∷ bs)
      → inbound lib parse key r ≡ deliver plain
  unfolding inbound
  inbound-sealed key plain r b bs m header body le enc = rw m (
      ap (λ x. declared_length lib parse key x r.content_length) body
      ∙ declared_length-sealed key plain b bs r.content_length header le enc)

module _ (lib : CryptoLibrary) (parse : Parsing) (v : Valkey) (json : SessionJson) (now : ℕ)
    (call_next : Option Account → Bytes → Exec v.Store Answer) (iv : Bytes) where
  -- A session id that leads nowhere is refused on every path that is not public, and no handler runs.
  pub dispatch-unknown :
      (r : Request) (session_id : String) (s s' : v.Store)
      → is_public parse r.path ≡ false
      → r.session_header ≡ some session_id
      → str_eq session_id "" ≡ false
      → get_session v json now session_id s ≡ (ok none, s')
      → dispatch lib parse v json now call_next iv true r s
        ≡ (ok (error_response 401 "Invalid or expired session"), s')
  unfolding dispatch
  dispatch-unknown r session_id s s' private header given missing = rw private (
      ap (λ h. by_header lib parse v json now call_next iv true r h s) header ∙ rw (given, missing))

  -- In a live session, a POST, PUT or PATCH request whose body, within the size limit, is the envelope of
  -- what its client encrypts under the key of the session, is handled as the plaintext from the account of
  -- the session: what the handler answers to these two, the client opens with that key, status and body,
  -- and what it leaves in the store stays.
  pub dispatch-session :
      (r : Request) (session_id : String) (session : E2ESession) (key plain : Bytes) (b : ℕ)
      (bs : Bytes) (a : Answer) (s t : v.Store)
      → is_public parse r.path ≡ false
      → r.session_header ≡ some session_id
      → str_eq session_id "" ≡ false
      → get_session v json now session_id s ≡ (ok (some session), s)
      → lib.from_hex session.session_key ≡ some key
      → length key ≡ 32
      → length iv ≡ 12
      → str_eq r.method "POST" || str_eq r.method "PUT" || str_eq r.method "PATCH" ≡ true
      → IsDeclared lib parse r.content_length
      → r.body ≡ b ∷ bs
      → length (b ∷ bs) ≤ max_body_size
      → IsSealed lib parse key plain (b ∷ bs)
      → call_next (some session.account) plain s ≡ (ok a, t)
      → (answer : Response) × (dispatch lib parse v json now call_next iv true r s ≡ (ok answer, t))
        × (received lib parse key answer ≡ some (a.status, a.body))
  unfolding dispatch
  dispatch-session r session_id session key plain b bs a s t private header given live hex k n m
        declared body le enc ran =
      let arrives = inbound-sealed lib parse key plain r b bs m declared body le enc in
      let (answer, out, opens) = received-outbound lib parse key iv a k n in
      (
        answer,
        rw private (
            ap (λ h. by_header lib parse v json now call_next iv true r h s) header
            ∙ rw (given, live, hex, arrives, ran, out)),
        opens,
      )
