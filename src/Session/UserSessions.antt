-- ===== src/Session/UserSessions.antt =====
-- app/shared/session/repository.py: the sessions of users, their refresh tokens and the blacklist.
use iot_server.Prelude.{ℕ, String, Bool, Option, none, some, ltb, ℤ, pos, negsuc, if◌then◌else◌}
use iot_server.Valkey.{Valkey, Cell, ttl}
use iot_server.Http.{Exec, ok, ◌>>=◌, ◌>>◌}
use iot_server.Session.Models.{Codec, SessionData}
use iot_server.Session.Keys.{user_key, refresh_key, blacklist_key}
use iot_server.Session.Repository.{is_some, delete, setex, load_model}

abbrev pub positive_or : ℤ → ℕ → ℕ
positive_or (pos n) other = if ltb 0 n then n else other
positive_or (negsuc n) other = other

module _ (v : Valkey) (codec : Codec SessionData) (now : ℕ) where
  unfoldable pub store_session : String → SessionData → ℕ → Exec v.Store (Unit {0})
  store_session user_id d span = do
    setex v now (user_key user_id) span (codec.dump d)
    setex v now (refresh_key d.refresh_token) span user_id

  unfoldable pub get_session : String → Exec v.Store (Option SessionData)
  unfolding load_model
  get_session user_id s =
      load_model v codec now (user_key user_id) (v.cell now (user_key user_id) s) s

  unfoldable pub drop_refresh : Option SessionData → Exec v.Store (Unit {0})
  drop_refresh none s = (ok tt, s)
  drop_refresh (some d) s = (ok tt, v.delete now (refresh_key d.refresh_token) s)

  unfoldable pub delete_session : String → Exec v.Store (Unit {0})
  unfolding get_session drop_refresh
  delete_session user_id = do
    session ← get_session user_id
    delete v now (user_key user_id)
    drop_refresh session

  -- `settings.SESSION_TTL_SECONDS` stands in for a TTL that is not positive.
  unfoldable pub restore_touched : String → ℕ → Option SessionData → Exec v.Store (Unit {0})
  unfolding store_session
  restore_touched user_id session_ttl none s = (ok tt, s)
  restore_touched user_id session_ttl (some d) s =
      store_session user_id (record d { last_activity = now })
        (positive_or (ttl now (v.cell now (user_key user_id) s)) session_ttl) s

  unfoldable pub update_last_activity : String → ℕ → Exec v.Store (Unit {0})
  unfolding get_session restore_touched
  update_last_activity user_id session_ttl = do
    session ← get_session user_id
    restore_touched user_id session_ttl session

module _ (v : Valkey) (now : ℕ) where
  abbrev value_of : Option Cell → Option String
  value_of none = none
  value_of (some c) = some c.value

  unfoldable pub get_user_by_refresh_token : String → Exec v.Store (Option String)
  get_user_by_refresh_token token s = (ok (value_of (v.cell now (refresh_key token) s)), s)

  unfoldable pub add_to_blacklist : String → ℕ → Exec v.Store (Unit {0})
  add_to_blacklist token_id span = setex v now (blacklist_key token_id) span "1"

  unfoldable pub is_blacklisted : String → Exec v.Store Bool
  is_blacklisted token_id s = (ok (is_some (v.cell now (blacklist_key token_id) s)), s)
