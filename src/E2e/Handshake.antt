-- ===== src/E2e/Handshake.antt =====
-- The login of app/domain/auth/service.py, with the client on the other side.
use iot_server.Prelude.{ℕ, ◌+◌, ◌≤◌, ◌<◌, ◌≡◌, String, false, none, some, str_eq, ◌⊎◌, inl, inr}
use iot_server.Prelude.Lists.{length}
use iot_server.Valkey.{Valkey}
use iot_server.Http.{ok}
use iot_server.E2e.Crypto.{
  Bytes, CryptoLibrary, aes_encrypt, aes_decrypt, derive_temp_key, derive_session_key,
}
use iot_server.E2e.SessionStore.{SessionJson, create_session, get_session}
use iot_server.E2e.Renewal.{get-create}
use iot_server.E2e.Login.{
  SensitiveData, Db, Resolved, resolve_username, LoginJson, invalid_credentials, decrypt_parts,
  client_random, temp_key_of, account_context, Draw, login,
}

module _ (lib : CryptoLibrary) (lj : LoginJson) (v : Valkey) (json : SessionJson)
    (session_ttl now : ℕ) (draw : Draw) where
  -- An unknown or inactive user, and a message that does not decrypt, are refused in one way, and no
  -- session is made.
  pub login-refused :
      (db : Db) (username payload_b64 random_hex iv_b64 : String) (s : v.Store)
      → (resolve_username db username ≡ ok none)
        ⊎ ((r : Resolved) × (resolve_username db username ≡ ok (some r))
            × (client_random lib lj (temp_key_of lib lj r.data_row random_hex) payload_b64 iv_b64
                ≡ none))
      → login lib lj v json session_ttl now draw db username payload_b64 random_hex iv_b64 s
        ≡ (invalid_credentials, s)
  unfolding login
  login-refused db username payload_b64 random_hex iv_b64 s (inl unknown) = rw unknown
  login-refused db username payload_b64 random_hex iv_b64 s (inr (r, known, bad)) = rw (known, bad)

  pub temp_key-length :
      (d : SensitiveData) (random_hex : String) → length (temp_key_of lib lj d random_hex) ≡ 32
  unfolding temp_key_of derive_temp_key
  temp_key-length d random_hex = lib.hkdf-length _ _ _

  -- What an honest client sends opens to the secret that it chose.
  client_random-honest :
      (key iv plain ct : Bytes) (random2 : String)
      → lib.gcm_encrypt key iv plain ≡ some ct
      → lj.read_random2 plain ≡ some random2
      → client_random lib lj key (lib.b64encode ct) (lib.b64encode iv) ≡ some random2
  unfolding client_random aes_decrypt
  client_random-honest key iv plain ct random2 e r = rw (
    lib.b64decode-b64encode ct,
    lib.b64decode-b64encode iv,
    lib.decrypt-encrypt key iv plain ct e,
    r,
  )

  -- A client that knows the credentials of an active account, and so the temporary key, gets an answer
  -- that it can open; the session under the id in it holds the key that both derive, and the account.
  pub login-honest :
      (t : ℕ) (db : Db) (username random_hex random2 : String) (r : Resolved) (iv plain ct : Bytes)
      (s : v.Store)
      → 0 < session_ttl
      → now ≤ t
      → t < now + session_ttl
      → resolve_username db username ≡ ok (some r)
      → lib.gcm_encrypt (temp_key_of lib lj r.data_row random_hex) iv plain ≡ some ct
      → lj.read_random2 plain ≡ some random2
      → str_eq random2 "" ≡ false
      → length draw.iv ≡ 12
      → (reply : String) × (s' : v.Store) × (login lib lj v json session_ttl now draw db username
            (lib.b64encode ct)
            random_hex
            (lib.b64encode iv)
            s
          ≡ (ok (reply, lib.b64encode draw.iv), s'))
        × (decrypt_parts lib lj
              (temp_key_of lib lj r.data_row random_hex)
              (lib.b64decode reply)
              (some draw.iv)
            ≡ some (lj.dump_reply draw.random3 draw.session_id))
        × (get_session v json t draw.session_id s' ≡ (
          ok (
              some (record {
                session_id = draw.session_id;
                session_key = lib.hex (derive_session_key lib random2 draw.random3);
                account = account_context lib lj r;
                created_at = now;
              })),
          s',
        ))
  unfolding login decrypt_parts aes_encrypt aes_decrypt
  login-honest t db username random_hex random2 r iv plain ct s pos le lt known sent secret given
        nonce =
      let key = temp_key_of lib lj r.data_row random_hex in
      let (out, e) =
        lib.encrypts key draw.iv (lj.dump_reply draw.random3 draw.session_id)
          (temp_key-length r.data_row random_hex) nonce in
      let made =
        create_session v json now draw.session_id
          (lib.hex (derive_session_key lib random2 draw.random3)) (account_context lib lj r)
          session_ttl s in
      (
        lib.b64encode out,
        made.1,
        rw (known, client_random-honest key iv plain ct random2 sent secret, given, e),
        rw (lib.b64decode-b64encode out, lib.decrypt-encrypt key draw.iv _ out e),
        (get-create v json now t session_ttl draw.session_id
            (lib.hex (derive_session_key lib random2 draw.random3)) (account_context lib lj r) s pos
            le lt).1,
      )
