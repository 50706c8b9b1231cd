-- ===== src/Client/Connected.antt =====
-- `cmd_login` of http/e2e.py against the route of app/domain/auth/controller.py.
use Prim.Native.String.{◌++◌}
use iot_server.Prelude.{
  ℕ, ◌+◌, ◌≤◌, ◌<◌, ◌≡◌, refl, String, false, Option, none, some, [], ◌∷◌, str_eq,
}
use iot_server.Prelude.Lists.{length}
use iot_server.Valkey.{Valkey}
use iot_server.Http.{Result, ok, err, http, too_many, python}
use iot_server.E2e.Crypto.{
  Bytes, CryptoLibrary, aes_encrypt, aes_decrypt, hash_password, derive_temp_key,
  derive_session_key,
}
use iot_server.E2e.SessionStore.{SessionJson, get_session}
use iot_server.E2e.Login.{
  SensitiveData, Db, Resolved, by_email, get_challenge, resolve_username, LoginJson, decrypt_parts,
  temp_key_of, account_context, Draw,
}
use iot_server.E2e.Resolution.{resolve_found-row}
use iot_server.E2e.Handshake.{login-honest, temp_key-length}
use iot_server.E2e.Routes.{limited, challenge_route, login_route, unauthorized}
use iot_server.RateLimit.{Request, enforce_request_rate_limit}
use iot_server.Client.{
  World, Network, Messages, content_type, ClientDraw, temp_key, decode_both, keep_session,
  save_session, open_reply, login_with, require_200, connected, http_call, cmd_login,
}

-- What the framework answers for what a route returns or raises.
unfoldable pub respond :
    {A S : Type 0} → (A → Bytes) → (String → Bytes) → Result A × S → Option (ℕ × Bytes) × S
respond dump dump_detail (ok a, s) = (some (200, dump a), s)
respond dump dump_detail (err (http status detail), s) = (some (status, dump_detail detail), s)
respond dump dump_detail (err (too_many seconds), s) =
    (some (429, dump_detail "Too Many Requests"), s)
respond dump dump_detail (err (python name), s) =
    (some (500, dump_detail "Internal Server Error"), s)

-- The two routes of the server are reached under `base_url` by a client that the limiter sees as `request`.
-- The client writes the address into the query as it is; `challenge` says that the server reads it back,
-- as it does where the address has no character that a query encodes.
pub record IsServed (lib : CryptoLibrary) (lj : LoginJson) (messages : Messages lj) (v : Valkey)
    (json : SessionJson) (session_ttl now : ℕ) (draw : Draw) (lower_hyphen : String → String)
    (request : Request) (db : Db) (random_salt nonce : String) (base_url email : String)
    (net : Network v.Store) : Type 0 where
  pub challenge :
      (s : v.Store)
      → net
          (record {
            method = "GET";
            url = base_url ++ ("/api/v1/auth/challenge?email=" ++ email);
            data_bytes = none;
            headers = content_type ∷ [];
          })
          s
        ≡ respond messages.dump_challenge messages.dump_detail
            (challenge_route v lower_hyphen now request db random_salt nonce email s)
  pub login :
      (payload random iv : String) (s : v.Store)
      → net
          (record {
            method = "POST";
            url = base_url ++ "/api/v1/auth/login";
            data_bytes = some (messages.dump_login email payload random iv);
            headers = content_type ∷ [];
          })
          s
        ≡ respond messages.dump_sealed messages.dump_detail (
            login_route lib lj v json session_ttl now draw lower_hyphen request db email payload
              random iv s)

salt-resolved :
    (db : Db) (random_salt nonce email : String) (r : Resolved)
    → resolve_username db email ≡ ok (some r)
    → (get_challenge db random_salt nonce email).0 ≡ r.data_row.password_salt
unfolding resolve_username get_challenge
salt-resolved db random_salt nonce email r e =
    rw (get_challenge, resolve_found-row db (by_email email db.sensitive) r e) refl

module _ (lib : CryptoLibrary) (lj : LoginJson) where
  decrypt_parts-both :
      (key iv plain : Bytes) (payload : Option Bytes)
      → decrypt_parts lib lj key payload (some iv) ≡ some plain
      → (ct : Bytes) × (payload ≡ some ct) × (aes_decrypt lib ct key iv ≡ some plain)
  unfolding decrypt_parts
  decrypt_parts-both key iv plain none e = cc
  decrypt_parts-both key iv plain (some ct) e = (ct, refl, e)

module _ (lib : CryptoLibrary) (lj : LoginJson) (messages : Messages lj) {S : Type 0}
    (net : Network S) (email password base_url : String) (drawn : ClientDraw) where
  -- With the password, the client derives the key that the server takes from the row.
  temp_key-temp_key_of :
      (d : SensitiveData)
      → d.password_hash ≡ hash_password lib password d.password_salt
      → temp_key lib lj messages net email password base_url drawn d.password_salt
        ≡ temp_key_of lib lj d drawn.random_hex
  unfolding temp_key temp_key_of derive_temp_key hash_password
  temp_key-temp_key_of d h = rw h refl

  open_reply-decrypted :
      (key iv : Bytes) (payload random3 session_id : String) (w : World S)
      → decrypt_parts lib lj key (lib.b64decode payload) (some iv)
        ≡ some (lj.dump_reply random3 session_id)
      → open_reply lib lj messages net email password base_url drawn key
          (payload, lib.b64encode iv)
          w
        ≡ (
          ok tt,
          record w {
            file = some (record {
              session_id = session_id;
              session_key = lib.hex (derive_session_key lib drawn.random2 random3);
              base_url = base_url;
            });
          },
        )
  unfolding open_reply decode_both keep_session save_session derive_session_key
  open_reply-decrypted key iv payload random3 session_id w e =
      let (ct, b, d) = decrypt_parts-both lib lj key iv _ (lib.b64decode payload) e in
      rw (b, lib.b64decode-b64encode iv, d, messages.read_reply-dump_reply random3 session_id) refl

module _ (lib : CryptoLibrary) (lj : LoginJson) (messages : Messages lj) (v : Valkey)
    (json : SessionJson) (session_ttl now : ℕ) (draw : Draw) (lower_hyphen : String → String)
    (request : Request) (db : Db) (random_salt nonce base_url email : String)
    (net : Network v.Store)
    (served : IsServed lib lj messages v json session_ttl now draw lower_hyphen request db
      random_salt nonce base_url email net) where
  -- With the password of an active account whose address the query of the challenge carries unencoded, and
  -- when the rate limiter admits both of its calls, `cmd_login` succeeds against the routes of the server:
  -- it leaves a session file with the id of a session that the server holds for this account until its
  -- lifetime ends, and with the key of that session.
  pub cmd_login-connected :
      (t : ℕ) (password : String) (drawn : ClientDraw) (r : Resolved) (w : World v.Store)
      (s₁ s₂ : v.Store)
      → enforce_request_rate_limit v lower_hyphen now request w.server ≡ (ok tt, s₁)
      → enforce_request_rate_limit v lower_hyphen now request s₁ ≡ (ok tt, s₂)
      → 0 < session_ttl
      → now ≤ t
      → t < now + session_ttl
      → resolve_username db email ≡ ok (some r)
      → r.data_row.password_hash ≡ hash_password lib password r.data_row.password_salt
      → str_eq drawn.random2 "" ≡ false
      → length drawn.iv ≡ 12
      → length draw.iv ≡ 12
      → (s : v.Store) × (key : String) × (cmd_login lib lj messages net email password base_url
            drawn w
          ≡ (
            ok tt,
            record {
              file =
                  some (record {
                    session_id = draw.session_id;
                    session_key = key;
                    base_url = base_url;
                  });
              server = s;
            },
          ))
        × (get_session v json t draw.session_id s ≡ (
          ok (
              some (record {
                session_id = draw.session_id;
                session_key = key;
                account = account_context lib lj r;
                created_at = now;
              })),
          s,
        ))
  unfolding cmd_login login_with require_200 connected http_call login_route challenge_route limited
      unauthorized respond aes_encrypt
  cmd_login-connected t password drawn r w s₁ s₂ first second pos le lt known hashed given nonce₁
        nonce₂ =
      let same =
        temp_key-temp_key_of lib lj messages net email password base_url drawn r.data_row hashed in
      let plain = messages.dump_random2 drawn.random2 in
      let (ct, sent) =
        lib.encrypts (temp_key_of lib lj r.data_row drawn.random_hex) drawn.iv plain
          (temp_key-length lib lj v json session_ttl now draw r.data_row drawn.random_hex) nonce₁ in
      let (reply, s, answered, opened, live) =
        login-honest lib lj v json session_ttl now draw t db email drawn.random_hex drawn.random2 r
          drawn.iv plain ct s₂ pos le lt known sent
          (messages.read_random2-dump_random2 drawn.random2) given nonce₂ in
      let kept =
        open_reply-decrypted lib lj messages net email password base_url drawn
          (temp_key_of lib lj r.data_row drawn.random_hex) draw.iv reply draw.random3
          draw.session_id (record w { server = s }) opened in
      (
        s,
        lib.hex (derive_session_key lib drawn.random2 draw.random3),
        rw
            (
              served.challenge w.server,
              first,
              messages.read_salt-dump_challenge (get_challenge db random_salt nonce email),
              salt-resolved db random_salt nonce email r known,
              same,
              sent,
              served.login (lib.b64encode ct) drawn.random_hex (lib.b64encode drawn.iv) s₁,
              second,
              answered,
              messages.read_sealed-dump_sealed (reply, lib.b64encode draw.iv),
            )
            kept,
        live,
      )
