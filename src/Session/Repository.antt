-- ===== src/Session/Repository.antt =====
-- app/shared/session/repository.py: each method is an action on the Valkey store at the second
-- `now`. Connecting and closing the client is not modelled.
use iot_server.Prelude.{ℕ, String, Bool, true, false, Option, none, some, str_eq, if◌then◌else◌}
use iot_server.Valkey.{Valkey, Cell}
use iot_server.Http.{Exec, ok, err, python, ◌>>=◌, ◌>>◌}
use iot_server.Session.Models.{Codec, Loaded, loaded, value_error, type_error, EntitySessionData}
use iot_server.Session.Keys.{entity_key, index_key}

abbrev pub is_some {ℓ} : {A : Type ℓ} → Option A → Bool
is_some none = false
is_some (some _) = true

-- GET, EXISTS and DEL as actions.
abbrev pub get : (v : Valkey) → ℕ → String → Exec v.Store (Option Cell)
get v now key s = (ok (v.cell now key s), s)

abbrev pub delete : (v : Valkey) → ℕ → String → Exec v.Store (Unit {0})
delete v now key s = (ok tt, v.delete now key s)

abbrev pub setex : (v : Valkey) → ℕ → String → ℕ → String → Exec v.Store (Unit {0})
setex v now key ttl value s = (ok tt, v.setex now key ttl value s)

-- The reading half of `get_session` and `get_entity_session`: a text that does not parse is
-- deleted, and JSON that is no object raises at `**`.
unfoldable pub parsed : (v : Valkey) {A : Type 0} → ℕ → String → Loaded A → Exec v.Store (Option A)
parsed v now key (loaded a) s = (ok (some a), s)
parsed v now key value_error s = (ok none, v.delete now key s)
parsed v now key type_error s = (err (python "TypeError"), s)

unfoldable pub load_model :
    (v : Valkey) {A : Type 0} → Codec A → ℕ → String → Option Cell → Exec v.Store (Option A)
unfolding parsed
load_model v codec now key none s = (ok none, s)
load_model v codec now key (some c) s =
    if str_eq c.value "" then (ok none, s) else parsed v now key (codec.load c.value) s

-- Entity sessions.
module _ (v : Valkey) (codec : Codec EntitySessionData) (now : ℕ) where
  unfoldable pub entity_session_exists : String → Exec v.Store Bool
  entity_session_exists id s = (ok (is_some (v.cell now (entity_key id) s)), s)

  unfoldable pub store_entity_session : EntitySessionData → ℕ → Exec v.Store Bool
  store_entity_session d ttl s =
      let (created, s') = v.set_nx now (entity_key d.entity_id) ttl (codec.dump d) s in
      if created
      then (ok true, v.setex now (index_key d.session_id) ttl d.entity_id s')
      else (ok false, s')

  unfoldable pub get_entity_session : String → Exec v.Store (Option EntitySessionData)
  unfolding load_model
  get_entity_session id s = load_model v codec now (entity_key id) (v.cell now (entity_key id) s) s

  -- The index holds the text of an entity id; an empty one counts as none.
  unfoldable pub follow_index : Option Cell → Exec v.Store (Option EntitySessionData)
  unfolding get_entity_session
  follow_index none s = (ok none, s)
  follow_index (some c) s = if str_eq c.value "" then (ok none, s) else get_entity_session c.value s

  unfoldable pub get_entity_session_by_id : String → Exec v.Store (Option EntitySessionData)
  unfolding follow_index
  get_entity_session_by_id session_id s = follow_index (v.cell now (index_key session_id) s) s

  unfoldable pub drop_index : Option EntitySessionData → Exec v.Store (Unit {0})
  drop_index none s = (ok tt, s)
  drop_index (some d) s = (ok tt, v.delete now (index_key d.session_id) s)

  unfoldable pub delete_entity_session : String → Exec v.Store (Unit {0})
  unfolding get_entity_session drop_index
  delete_entity_session id = do
    existing ← get_entity_session id
    delete v now (entity_key id)
    drop_index existing

  unfoldable pub touch_entity_session : EntitySessionData → Exec v.Store (Unit {0})
  touch_entity_session d s =
      let touched = record d { last_activity = now } in
      (ok tt, v.set_keepttl now (entity_key d.entity_id) (codec.dump touched) s)
