-- ===== src/Session/Requests.antt =====
-- `SessionService` (app/shared/session/service.py) over the life of a session.
use iot_server.Prelude.{
  ℕ, ◌+◌, ◌≤◌, ◌<◌, ◌≡◌, refl, ap, ◌∙◌, String, true, false, Option, none, some, ltb, str_eq,
  eq_refl, ◌||◌, Bool-cases, inl, inr, if◌then◌else◌,
}
use iot_server.Valkey.{Valkey, Cell}
use iot_server.Http.{ok, err, session_already_exists, session_not_found, invalid_tag, continue-ok}
use iot_server.Session.Keys.{entity_key}
use iot_server.Session.Models.{Codec, EntitySessionData}
use iot_server.Session.Security.{HmacLibrary, verify_hmac, compute_hmac}
use iot_server.Session.Validation.{
  Settings, Library, Metadata, EntityId, validate_entity_id, validate_key_session,
  validate_ip_address, validate_metadata,
}
use iot_server.Session.Repository.{
  store_entity_session, get_entity_session_by_id, touch_entity_session,
}
use iot_server.Session.History.{lookup_after_store}
use iot_server.Session.Service.{new_session, create_entity_session, process_encrypted_request}

module _ (v : Valkey) (codec : Codec EntitySessionData) (lib : Library) (hl : HmacLibrary)
    (st : Settings) where
  -- A request of a session that is found is let through exactly if its tag is the HMAC of the session
  -- id and the payload under the session's key; a refused request changes nothing.
  pub process-found :
      (now : ℕ) (d : EntitySessionData) (session_id tag payload expected : String) (s : v.Store)
      → str_eq session_id "" || str_eq tag "" || str_eq payload "" ≡ false
      → get_entity_session_by_id v codec now session_id s ≡ (ok (some d), s)
      → compute_hmac hl session_id payload d.key_session ≡ ok expected
      → process_encrypted_request v codec lib hl st now session_id tag payload s ≡ (
          if str_eq tag expected
          then (ok d.key_session, (touch_entity_session v codec now d s).1)
          else (err invalid_tag, s))
  unfolding process_encrypted_request verify_hmac touch_entity_session
  process-found now d session_id tag payload expected s given found hmac =
      rw (given, found, hmac)
        (elim (Bool-cases (str_eq tag expected)) [ inl same ↦ rw same | inr other ↦ rw other ])

  -- A session id that leads nowhere is refused, and nothing is changed.
  process-missing :
      (now : ℕ) (session_id tag payload : String) (s : v.Store)
      → str_eq session_id "" || str_eq tag "" || str_eq payload "" ≡ false
      → get_entity_session_by_id v codec now session_id s ≡ (ok none, s)
      → process_encrypted_request v codec lib hl st now session_id tag payload s
        ≡ (err session_not_found, s)
  unfolding process_encrypted_request
  process-missing now session_id tag payload s given found = rw (given, found)

  -- For an entity with a live session a second one is refused, and nothing is changed.
  pub create-taken :
      (now : ℕ) (session_id id key_session ip : String) (entity_id : EntityId)
      (given : Option Metadata) (m : Metadata) (c : Cell) (s : v.Store)
      → validate_entity_id lib entity_id ≡ ok id
      → validate_key_session hl key_session ≡ ok tt
      → validate_ip_address lib ip ≡ ok tt
      → validate_metadata lib st given ≡ ok m
      → v.cell now (entity_key id) s ≡ some c
      → create_entity_session v codec lib hl st now session_id entity_id key_session ip given s
        ≡ (err session_already_exists, s)
  unfolding create_entity_session
  create-taken now session_id id key_session ip entity_id given m c s e1 e2 e3 e4 e5 =
      rw (e1, e2, e3, e4, e5)

  create-free :
      (now : ℕ) (session_id id key_session ip : String) (entity_id : EntityId)
      (given : Option Metadata) (m : Metadata) (s : v.Store)
      → validate_entity_id lib entity_id ≡ ok id
      → validate_key_session hl key_session ≡ ok tt
      → validate_ip_address lib ip ≡ ok tt
      → validate_metadata lib st given ≡ ok m
      → v.cell now (entity_key id) s ≡ none
      → let stored =
          store_entity_session v codec now
            (new_session now session_id id key_session ip m)
            st.session_ttl_seconds
            s in
        stored.0 ≡ ok true
        → create_entity_session v codec lib hl st now session_id entity_id key_session ip given s
          ≡ (ok session_id, stored.1)
  unfolding create_entity_session
  create-free now session_id id key_session ip entity_id given m s e1 e2 e3 e4 e5 e6 =
      rw (e1, e2, e3, e4, e5)
        (continue-ok _
          (store_entity_session v codec now (new_session now session_id id key_session ip m)
            st.session_ttl_seconds s)
          e6)

  -- Valid inputs for an entity without a live session create one. Until its time to live runs out, a
  -- request under its id with the right tag gets the session's key; from then on it is refused.
  pub session_lifetime :
      (now t : ℕ) (session_id id key_session ip tag payload : String) (entity_id : EntityId)
      (given : Option Metadata) (m : Metadata) (s : v.Store)
      → validate_entity_id lib entity_id ≡ ok id
      → validate_key_session hl key_session ≡ ok tt
      → validate_ip_address lib ip ≡ ok tt
      → validate_metadata lib st given ≡ ok m
      → 0 < st.session_ttl_seconds
      → str_eq id "" ≡ false
      → v.cell now (entity_key id) s ≡ none
      → now ≤ t
      → str_eq session_id "" || str_eq tag "" || str_eq payload "" ≡ false
      → compute_hmac hl session_id payload key_session ≡ ok tag
      → let (created, s') =
          create_entity_session v codec lib hl st now session_id entity_id key_session ip given s in
        (created ≡ ok session_id)
        × ((process_encrypted_request v codec lib hl st t session_id tag payload s').0 ≡ (
            if ltb t (now + st.session_ttl_seconds) then ok key_session else err session_not_found))
  session_lifetime now t session_id id key_session ip tag payload entity_id given m s e1 e2 e3 e4
        span named free le nonempty hmac =
      let d = new_session now session_id id key_session ip m in
      let stored = store_entity_session v codec now d st.session_ttl_seconds s in
      let found = lookup_after_store v codec now st.session_ttl_seconds t d s span le named free in
      let made =
        create-free now session_id id key_session ip entity_id given m s e1 e2 e3 e4 free found.0 in
      rw made (
        refl,
        elim (Bool-cases (ltb t (now + st.session_ttl_seconds))) [
          | inl live ↦ rw live (
              ap (λ p. p.0)
                (process-found t d session_id tag payload tag stored.1 nonempty (rw live at found.1)
                  hmac)
              ∙ rw eq_refl)
          | inr dead ↦ rw dead (
              ap (λ p. p.0)
                (process-missing t session_id tag payload stored.1 nonempty (rw dead at found.1)))
        ],
      )
