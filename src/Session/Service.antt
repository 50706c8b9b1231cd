-- ===== src/Session/Service.antt =====
-- app/shared/session/service.py: `SessionService`. Random tokens and the time are arguments; a call
-- runs at one second.
use iot_server.Prelude.{ℕ, String, Bool, false, Option, none, some, str_eq, ◌||◌, not}
use iot_server.Valkey.{Valkey}
use iot_server.Http.{
  Exec, Result, ok, err, python, session_already_exists, session_not_found, invalid_tag, raise_if,
  or_raise, ◌>>=◌, ◌>>◌,
}
use iot_server.Session.Models.{Codec, EntitySessionData, SessionData, SessionTokens}
use iot_server.Session.Security.{
  HmacLibrary, verify_hmac, Claims, Json, text, claim, with_claim, JweLibrary, encrypt, Bytes,
}
use iot_server.Session.Validation.{
  Settings, Library, Metadata, EntityId, validate_entity_id, validate_key_session,
  validate_ip_address, validate_metadata,
}
use iot_server.Session.Repository.{
  entity_session_exists, store_entity_session, get_entity_session_by_id, delete_entity_session,
  touch_entity_session,
}
use iot_server.Session.UserSessions.{delete_session, store_session}

-- A pure check inside a method.
abbrev pub lift : {S A : Type 0} → Result A → Exec S A
lift r s = (r, s)

abbrev pub new_session : ℕ → String → String → String → String → Metadata → EntitySessionData
new_session now session_id id key_session ip_address metadata = record {
  session_id = session_id;
  entity_id = id;
  key_session = key_session;
  ip_address = ip_address;
  metadata = metadata;
  created_at = now;
  last_activity = now;
}

module _ (v : Valkey) (codec : Codec EntitySessionData) (lib : Library) (hl : HmacLibrary)
    (st : Settings) (now : ℕ) where
  unfoldable pub check_active_session : EntityId → Exec v.Store Bool
  unfolding validate_entity_id entity_session_exists
  check_active_session entity_id = do
    id ← lift (validate_entity_id lib entity_id)
    entity_session_exists v codec now id

  -- `session_id` is the result of `secrets.token_urlsafe(32)`, which the method returns.
  unfoldable pub create_entity_session :
      String → EntityId → String → String → Option Metadata → Exec v.Store String
  unfolding entity_session_exists
  create_entity_session session_id entity_id key_session ip_address metadata = do
    id ← lift (validate_entity_id lib entity_id)
    lift (validate_key_session hl key_session)
    lift (validate_ip_address lib ip_address)
    safe_metadata ← lift (validate_metadata lib st metadata)
    exists ← entity_session_exists v codec now id
    raise_if exists session_already_exists
    created ←
        store_entity_session v codec now
          (new_session now session_id id key_session ip_address safe_metadata)
          st.session_ttl_seconds
    raise_if (not created) session_already_exists
    (λ s. (ok session_id, s))

  unfoldable pub process_encrypted_request : String → String → String → Exec v.Store String
  process_encrypted_request session_id tag payload = do
    raise_if (str_eq session_id "" || str_eq tag "" || str_eq payload "") invalid_tag
    found ← get_entity_session_by_id v codec now session_id
    d ← or_raise found session_not_found
    is_valid ← lift (verify_hmac hl session_id payload tag d.key_session)
    raise_if (not is_valid) invalid_tag
    touch_entity_session v codec now d
    (λ s. (ok d.key_session, s))

  unfoldable pub invalidate_entity_session : EntityId → Exec v.Store (Unit {0})
  invalidate_entity_session entity_id = do
    id ← lift (validate_entity_id lib entity_id)
    delete_entity_session v codec now id

-- `claims.get(key, default)`, where pydantic wants a text: any other value is a ValidationError.
unfoldable pub text_or : String → Option Json → Result String
text_or d none = ok d
text_or d (some (text t)) = ok t
text_or d (some x) = err (python "ValidationError")

-- The same for a Boolean; `as_bool` is pydantic's conversion.
unfoldable pub bool_or : (Json → Option Bool) → Bool → Option Json → Result Bool
bool_or as_bool d none = ok d
bool_or as_bool d (some x) = elim (as_bool x) [
  | none ↦ err (python "ValidationError")
  | some b ↦ ok b
]

module _ (v : Valkey) (codec : Codec SessionData) (jwe : JweLibrary) (key : Bytes)
    (as_bool : Json → Option Bool) (st : Settings) (now : ℕ) where
  unfoldable pub invalidate_user_session : String → Exec v.Store (Unit {0})
  invalidate_user_session user_id = delete_session v codec now user_id

  -- `token_id` and `refresh_token` are drawn by the method; the address and the agent default to
  -- "unknown" before the call.
  unfoldable pub create_session_with_tokens :
      String → String → String → Claims → String → String → Exec v.Store SessionTokens
  unfolding claim text_or bool_or
  create_session_with_tokens token_id refresh_token user_id claims ip_address user_agent = do
    delete_session v codec now user_id
    email ← lift (text_or "" (claim "email" claims))
    account_type ← lift (text_or "" (claim "type" claims))
    is_master ← lift (bool_or as_bool false (claim "is_master" claims))
    store_session v codec now user_id
        (record {
          user_id = user_id;
          token_id = token_id;
          refresh_token = refresh_token;
          email = email;
          account_type = account_type;
          is_master = is_master;
          ip_address = ip_address;
          user_agent = user_agent;
          created_at = now;
          last_activity = now;
        })
        st.session_ttl_seconds
    (λ s. (
      ok (record {
        access_token = encrypt jwe key now (with_claim "jti" (text token_id) claims) 30;
        refresh_token = refresh_token;
        token_type = "bearer";
      }),
      s,
    ))
