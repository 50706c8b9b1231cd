-- ===== src/Session/EntityLaws.antt =====
-- What the entity methods of the repository do to the cells of sessions and of the index.
use iot_server.Prelude.{
  str_ne, ℕ, ◌+◌, ◌<◌, ◌≡◌, refl, String, true, false, none, some, str_eq, if◌then◌else◌,
}
use iot_server.Valkey.{Valkey, Cell, expiring, kept}
use iot_server.Http.{ok}
use iot_server.Session.Models.{Codec, EntitySessionData}
use iot_server.Session.Keys.{entity_key, index_key}
use iot_server.Session.Repository.{
  store_entity_session, get_entity_session, get_entity_session_by_id, delete_entity_session,
  touch_entity_session, follow_index, load_model,
}

pub dump-not-empty : {A : Type 0} (codec : Codec A) (a : A) → str_eq (codec.dump a) "" ≡ false
dump-not-empty codec a = str_ne _ _ (codec.dump-ne-empty a)

pub load_model-dump :
    (v : Valkey) {A : Type 0} (codec : Codec A) (now : ℕ) (key : String) (a : A) (c : Cell)
    (s : v.Store)
    → c.value ≡ codec.dump a
    → load_model v codec now key (some c) s ≡ (ok (some a), s)
unfolding load_model
load_model-dump v codec now key a c s h = rw (h, dump-not-empty codec a, codec.load-dump a)

module _ (v : Valkey) (codec : Codec EntitySessionData) (now ttl : ℕ) (span : 0 < ttl) where
  -- The cells after a session was stored for an entity that had none.
  pub store_entity_session-new :
      (d : EntitySessionData) (s : v.Store)
      → v.cell now (entity_key d.entity_id) s ≡ none
      → let (r, s') = store_entity_session v codec now d ttl s in
        (r ≡ ok true)
        × ((k : String)
            → v.cell now k s' ≡ (
                if str_eq (index_key d.session_id) k
                then expiring d.entity_id (now + ttl)
                else if str_eq (entity_key d.entity_id) k
                then expiring (codec.dump d) (now + ttl)
                else v.cell now k s))
  unfolding store_entity_session
  store_entity_session-new d s free =
      let new = λ (k : String).
        v.cell-set_nx now ttl (entity_key d.entity_id) k (codec.dump d) s span free in
      rw ((new "").0) (
        refl,
        λ k. rw (v.cell-setex now ttl (index_key d.session_id) k d.entity_id _ span, (new k).1),
      )

module _ (v : Valkey) (codec : Codec EntitySessionData) (now : ℕ) where
  -- A second session is refused and changes nothing.
  pub store_entity_session-taken :
      (ttl : ℕ) (d : EntitySessionData) (s : v.Store) (c : Cell)
      → v.cell now (entity_key d.entity_id) s ≡ some c
      → store_entity_session v codec now d ttl s ≡ (ok false, s)
  unfolding store_entity_session
  store_entity_session-taken ttl d s c taken =
      rw (v.set_nx-taken now ttl (entity_key d.entity_id) (codec.dump d) s c taken)

  pub get_entity_session-held :
      (id : String) (d : EntitySessionData) (c : Cell) (s : v.Store)
      → v.cell now (entity_key id) s ≡ some c
      → c.value ≡ codec.dump d
      → get_entity_session v codec now id s ≡ (ok (some d), s)
  unfolding get_entity_session
  get_entity_session-held id d c s e h = rw e (load_model-dump v codec now (entity_key id) d c s h)

  pub get_entity_session-none :
      (id : String) (s : v.Store)
      → v.cell now (entity_key id) s ≡ none
      → get_entity_session v codec now id s ≡ (ok none, s)
  unfolding get_entity_session
  get_entity_session-none id s e = rw (e, load_model)

  pub by_id-indexed :
      (sid : String) (c : Cell) (s : v.Store)
      → v.cell now (index_key sid) s ≡ some c
      → str_eq c.value "" ≡ false
      → get_entity_session_by_id v codec now sid s ≡ get_entity_session v codec now c.value s
  unfolding get_entity_session_by_id
  by_id-indexed sid c s e ne = rw e (rw (ne, follow_index))

  pub by_id-none :
      (sid : String) (s : v.Store)
      → v.cell now (index_key sid) s ≡ none
      → get_entity_session_by_id v codec now sid s ≡ (ok none, s)
  unfolding get_entity_session_by_id
  by_id-none sid s e = rw (e, follow_index)

  pub delete_entity_session-held :
      (id : String) (d : EntitySessionData) (c : Cell) (s : v.Store)
      → v.cell now (entity_key id) s ≡ some c
      → c.value ≡ codec.dump d
      → let (r, s') = delete_entity_session v codec now id s in
        (r ≡ ok tt)
        × ((k : String)
            → v.cell now k s' ≡ (
                if str_eq (index_key d.session_id) k
                then none
                else if str_eq (entity_key id) k
                then none
                else v.cell now k s))
  unfolding delete_entity_session
  delete_entity_session-held id d c s e h = rw (get_entity_session-held id d c s e h) (
    refl,
    λ k. rw (v.cell-delete now (index_key d.session_id) k _, v.cell-delete now (entity_key id) k s),
  )

  pub delete_entity_session-none :
      (id : String) (s : v.Store)
      → v.cell now (entity_key id) s ≡ none
      → let (r, s') = delete_entity_session v codec now id s in
        (r ≡ ok tt)
        × ((k : String)
            → v.cell now k s' ≡ (if str_eq (entity_key id) k then none else v.cell now k s))
  unfolding delete_entity_session
  delete_entity_session-none id s e =
      rw (get_entity_session-none id s e) (refl, λ k. v.cell-delete now (entity_key id) k s)

  pub touch_entity_session-cell :
      (d : EntitySessionData) (s : v.Store) (k : String)
      → let (r, s') = touch_entity_session v codec now d s in
        v.cell now k s' ≡ (
          if str_eq (entity_key d.entity_id) k
          then kept
              (v.cell now (entity_key d.entity_id) s)
              (codec.dump (record d { last_activity = now }))
          else v.cell now k s)
  unfolding touch_entity_session
  touch_entity_session-cell d s k = v.cell-set_keepttl now (entity_key d.entity_id) k _ s
