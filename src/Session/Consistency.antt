-- ===== src/Session/Consistency.antt =====
-- The agreement of the entity sessions and the index of session ids in Valkey, under the methods of
-- app/shared/session/repository.py.
use iot_server.Prelude.{
  ℕ, ◌+◌, ◌≤◌, ◌<◌, ◌≡◌, refl, fun_ext, String, false, Option, none, some, arith, str_eq, eq_iff,
  inl, inr, Option-cases,
}
use iot_server.Valkey.{Valkey, Cell, survive, expiring, kept}
use iot_server.Session.Models.{Codec, EntitySessionData}
use iot_server.Session.Keys.{entity_key, index_key, key_laws}
use iot_server.Session.Repository.{
  store_entity_session, delete_entity_session, touch_entity_session,
}
use iot_server.Session.Agree.{
  Table, upd, Held, Agree, Agree-add, Agree-remove, Agree-touch, Agree-survive,
}
use iot_server.Session.EntityLaws.{
  store_entity_session-new, store_entity_session-taken, delete_entity_session-held,
  delete_entity_session-none, touch_entity_session-cell,
}

abbrev pub entities : (v : Valkey) → ℕ → v.Store → Table
entities v now s id = v.cell now (entity_key id) s

abbrev pub index : (v : Valkey) → ℕ → v.Store → Table
index v now s sid = v.cell now (index_key sid) s

abbrev pub IsConsistent : (v : Valkey) → Codec EntitySessionData → ℕ → v.Store → Type 0
IsConsistent v codec now s = Agree codec (entities v now s) (index v now s)

absurd_cell : {A : Type 0} {o : Option Cell} {c : Cell} → o ≡ none → o ≡ some c → A
absurd_cell n e = cc

module _ (v : Valkey) (codec : Codec EntitySessionData) where
  pub store-IsConsistent :
      (now ttl : ℕ) (d : EntitySessionData) (s : v.Store)
      → 0 < ttl
      → str_eq d.entity_id "" ≡ false
      → v.cell now (index_key d.session_id) s ≡ none
      → IsConsistent v codec now s
      → IsConsistent v codec now (store_entity_session v codec now d ttl s).1
  store-IsConsistent now ttl d s span named fresh inv =
      elim (Option-cases (v.cell now (entity_key d.entity_id) s)) [
        | inl free ↦
            let new = (store_entity_session-new v codec now ttl span d s free).1 in
            let ents : entities v now (store_entity_session v codec now d ttl s).1
                ≡ upd (entities v now s) d.entity_id (expiring (codec.dump d) (now + ttl)) =
              fun_ext λ id. simp key_laws at (new (entity_key id)) in
            let idxs : index v now (store_entity_session v codec now d ttl s).1
                ≡ upd (index v now s) d.session_id (expiring d.entity_id (now + ttl)) =
              fun_ext λ sid. simp key_laws at (new (index_key sid)) in
            rw (ents, idxs) (Agree-add codec _ _ inv d (now + ttl) named free fresh)
        | inr (c, taken) ↦ rw (store_entity_session-taken v codec now ttl d s c taken) inv
      ]

  pub delete-IsConsistent :
      (now : ℕ) (id : String) (s : v.Store)
      → IsConsistent v codec now s
      → IsConsistent v codec now (delete_entity_session v codec now id s).1
  delete-IsConsistent now id s inv = elim (Option-cases (v.cell now (entity_key id) s)) [
    | inl free ↦
        let gone = (delete_entity_session-none v codec now id s free).1 in
        let ents : entities v now (delete_entity_session v codec now id s).1 ≡ entities v now s =
          fun_ext λ i. ground (arith, simp key_laws at (gone (entity_key i)), eq_iff id i) in
        let idxs : index v now (delete_entity_session v codec now id s).1 ≡ index v now s =
          fun_ext λ sid. simp key_laws at (gone (index_key sid)) in
        rw (ents, idxs) inv
    | inr (c, there) ↦
        let h : Held codec (index v now s) id c = inv.held id c there in
        let gone = (delete_entity_session-held v codec now id h.d c s there h.dumped).1 in
        let ents : entities v now (delete_entity_session v codec now id s).1
            ≡ upd (entities v now s) id none =
          fun_ext λ i. simp key_laws at (gone (entity_key i)) in
        let idxs : index v now (delete_entity_session v codec now id s).1
            ≡ upd (index v now s) h.d.session_id none =
          fun_ext λ sid. simp key_laws at (gone (index_key sid)) in
        rw (ents, idxs, ← h.owner) (Agree-remove codec _ _ inv h.d c (rw h.owner there) h.dumped)
  ]

  -- The session that was read is written back with a new `last_activity`.
  pub touch-IsConsistent :
      (now : ℕ) (d : EntitySessionData) (c : Cell) (s : v.Store)
      → v.cell now (entity_key d.entity_id) s ≡ some c
      → c.value ≡ codec.dump d
      → IsConsistent v codec now s
      → IsConsistent v codec now (touch_entity_session v codec now d s).1
  touch-IsConsistent now d c s there dumped inv =
      let new = touch_entity_session-cell v codec now d s in
      let ents : entities v now (touch_entity_session v codec now d s).1
          ≡ upd (entities v now s) d.entity_id
              (kept (some c) (codec.dump (record d { last_activity = now }))) =
        fun_ext λ i. rw there at (simp key_laws at (new (entity_key i))) in
      let idxs : index v now (touch_entity_session v codec now d s).1 ≡ index v now s =
        fun_ext λ sid. simp key_laws at (new (index_key sid)) in
      rw (ents, idxs)
        (Agree-touch codec _ _ inv d c there dumped (record d { last_activity = now }) refl refl)

  -- Sessions and their index entries expire together.
  pub later-IsConsistent :
      (now t : ℕ) (s : v.Store) → now ≤ t → IsConsistent v codec now s → IsConsistent v codec t s
  later-IsConsistent now t s le inv =
      let ents : entities v t s ≡ (λ id. survive t (entities v now s id)) =
        fun_ext λ id. v.cell-later now t (entity_key id) s le in
      let idxs : index v t s ≡ (λ sid. survive t (index v now s sid)) =
        fun_ext λ sid. v.cell-later now t (index_key sid) s le in
      rw (ents, idxs) (Agree-survive codec _ _ inv t)

  -- A server without keys is consistent.
  pub empty-IsConsistent :
      (now : ℕ) (s : v.Store) → ((k : String) → v.cell now k s ≡ none) → IsConsistent v codec now s
  empty-IsConsistent now s none_ = record {
    held = λ id c e. absurd_cell (none_ (entity_key id)) e;
    backed = λ sid c e. absurd_cell (none_ (index_key sid)) e;
  }
