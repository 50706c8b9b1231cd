-- ===== src/Session/History.antt =====
-- Histories of entity sessions: calls of the repository, one after another, and the passing of time.
use iot_server.Prelude.{
  ℕ, ◌+◌, ◌≤◌, ◌<◌, ◌≡◌, refl, ap, ◌∙◌, String, true, false, none, some, str_eq, eq_refl, inl, inr,
  Bool-cases, if◌then◌else◌, ltb,
}
use iot_server.Valkey.{Valkey, Cell, survive, expiring, kept}
use iot_server.Http.{ok}
use iot_server.Session.Models.{Codec, EntitySessionData}
use iot_server.Session.Keys.{entity_key, index_key, key_laws}
use iot_server.Session.Repository.{
  store_entity_session, get_entity_session_by_id, delete_entity_session, touch_entity_session,
  entity_session_exists,
}
use iot_server.Session.Consistency.{
  IsConsistent, store-IsConsistent, delete-IsConsistent, touch-IsConsistent, later-IsConsistent,
}
use iot_server.Session.EntityLaws.{
  store_entity_session-new, store_entity_session-taken, delete_entity_session-held,
  touch_entity_session-cell, get_entity_session-held, by_id-indexed, by_id-none,
}

module _ (v : Valkey) (codec : Codec EntitySessionData) where
  -- One call, at the second `now`. A new session has an entity id and a session id that no index
  -- entry uses (it is 32 random bytes); what is touched was read in the same call.
  pub data Step : ℕ → v.Store → ℕ → v.Store → Type 0 where
    create :
        {now : ℕ} {s : v.Store} (d : EntitySessionData) (ttl : ℕ)
        → 0 < ttl
        → str_eq d.entity_id "" ≡ false
        → v.cell now (index_key d.session_id) s ≡ none
        → Step now s now (store_entity_session v codec now d ttl s).1
    remove :
        {now : ℕ} {s : v.Store} (id : String)
        → Step now s now (delete_entity_session v codec now id s).1
    touch :
        {now : ℕ} {s : v.Store} (d : EntitySessionData) (c : Cell)
        → v.cell now (entity_key d.entity_id) s ≡ some c
        → c.value ≡ codec.dump d
        → Step now s now (touch_entity_session v codec now d s).1
    wait : {now : ℕ} {s : v.Store} (t : ℕ) → now ≤ t → Step now s t s

  pub data Reach (now₀ : ℕ) (s₀ : v.Store) : ℕ → v.Store → Type 0 where
    here : Reach now₀ s₀ now₀ s₀
    next : {now t : ℕ} {s u : v.Store} → Reach now₀ s₀ now s → Step now s t u → Reach now₀ s₀ t u

  Step-IsConsistent :
      {now t : ℕ} {s u : v.Store}
      → Step now s t u
      → IsConsistent v codec now s
      → IsConsistent v codec t u
  Step-IsConsistent (create {now = now} {s = s} d ttl span named fresh) inv =
      store-IsConsistent v codec now ttl d s span named fresh inv
  Step-IsConsistent (remove {now = now} {s = s} id) inv = delete-IsConsistent v codec now id s inv
  Step-IsConsistent (touch {now = now} {s = s} d c there dumped) inv =
      touch-IsConsistent v codec now d c s there dumped inv
  Step-IsConsistent (wait {now = now} {s = s} t le) inv = later-IsConsistent v codec now t s le inv

  -- From a store where sessions and index agree, a store where they agree is left by every history of
  -- creations with a positive lifetime under a session id that the index does not have, removals, waits,
  -- and touches of a record that is live and still as it was read.
  pub Reach-IsConsistent :
      {now : ℕ} {s : v.Store} {t : ℕ} {u : v.Store}
      → IsConsistent v codec now s
      → Reach now s t u
      → IsConsistent v codec t u
  Reach-IsConsistent inv here = inv
  Reach-IsConsistent inv (next r st) = Step-IsConsistent st (Reach-IsConsistent inv r)

  -- For an entity without a live session, a session is created, and until its time to live runs out
  -- it is found by its session id, with nothing changed; from then on it is not found.
  pub lookup_after_store :
      (now ttl t : ℕ) (d : EntitySessionData) (s : v.Store)
      → 0 < ttl
      → now ≤ t
      → str_eq d.entity_id "" ≡ false
      → v.cell now (entity_key d.entity_id) s ≡ none
      → let (r, s') = store_entity_session v codec now d ttl s in
        (r ≡ ok true)
        × (get_entity_session_by_id v codec t d.session_id s'
            ≡ (ok (if ltb t (now + ttl) then some d else none), s'))
  lookup_after_store now ttl t d s span le named free =
      let new = store_entity_session-new v codec now ttl span d s free in
      let s' = (store_entity_session v codec now d ttl s).1 in
      let i : v.cell t (index_key d.session_id) s' ≡ survive t (expiring d.entity_id (now + ttl)) =
        v.cell-later now t (index_key d.session_id) s' le
        ∙ ap (survive t) (simp (key_laws, eq_refl) at (new.1 (index_key d.session_id))) in
      let e : v.cell t (entity_key d.entity_id) s'
          ≡ survive t (expiring (codec.dump d) (now + ttl)) =
        v.cell-later now t (entity_key d.entity_id) s' le
        ∙ ap (survive t) (simp (key_laws, eq_refl) at (new.1 (entity_key d.entity_id))) in
      (
        new.0,
        elim (Bool-cases (ltb t (now + ttl))) [
          | inl live ↦ rw live (
              by_id-indexed v codec t d.session_id
                (record { value = d.entity_id; deadline = some (now + ttl) }) s' (i ∙ rw live) named
              ∙ get_entity_session-held v codec t d.entity_id d
                  (record { value = codec.dump d; deadline = some (now + ttl) }) s' (e ∙ rw live)
                  refl)
          | inr dead ↦ rw dead (by_id-none v codec t d.session_id s' (i ∙ rw dead))
        ],
      )

  -- After a removal from a consistent store neither key is left, now or later.
  removed_cells :
      (now t : ℕ) (d : EntitySessionData) (c : Cell) (s : v.Store)
      → now ≤ t
      → v.cell now (entity_key d.entity_id) s ≡ some c
      → c.value ≡ codec.dump d
      → let s' = (delete_entity_session v codec now d.entity_id s).1 in
        (v.cell t (index_key d.session_id) s' ≡ none)
        × (v.cell t (entity_key d.entity_id) s' ≡ none)
  removed_cells now t d c s le there dumped =
      let gone = (delete_entity_session-held v codec now d.entity_id d c s there dumped).1 in
      let s' = (delete_entity_session v codec now d.entity_id s).1 in
      (
        v.cell-later now t (index_key d.session_id) s' le
            ∙ ap (survive t) (simp (key_laws, eq_refl) at (gone (index_key d.session_id))),
        v.cell-later now t (entity_key d.entity_id) s' le
            ∙ ap (survive t) (simp (key_laws, eq_refl) at (gone (entity_key d.entity_id))),
      )

  -- Once the live session of an entity was removed, its session id leads nowhere and the entity counts
  -- as free, now and at any later second.
  pub removed_session :
      (now t : ℕ) (d : EntitySessionData) (c : Cell) (s : v.Store)
      → now ≤ t
      → v.cell now (entity_key d.entity_id) s ≡ some c
      → c.value ≡ codec.dump d
      → let s' = (delete_entity_session v codec now d.entity_id s).1 in
        (get_entity_session_by_id v codec t d.session_id s' ≡ (ok none, s'))
        × (entity_session_exists v codec t d.entity_id s' ≡ (ok false, s'))
  unfolding entity_session_exists
  removed_session now t d c s le there dumped =
      let (i, e) = removed_cells now t d c s le there dumped in
      (
        by_id-none v codec t d.session_id (delete_entity_session v codec now d.entity_id s).1 i,
        rw e,
      )

  -- `process_encrypted_request` reads a session and later writes it back. If the session is removed
  -- in between, the write brings it back with no deadline and no index entry: from then on the entity
  -- is refused a new session at every second, and its old session id leads nowhere.
  pub touch_after_remove :
      (now t later ttl : ℕ) (d e : EntitySessionData) (c : Cell) (s : v.Store)
      → now ≤ t
      → t ≤ later
      → e.entity_id ≡ d.entity_id
      → v.cell now (entity_key d.entity_id) s ≡ some c
      → c.value ≡ codec.dump d
      → let s₁ = (delete_entity_session v codec now d.entity_id s).1 in
        let s₂ = (touch_entity_session v codec t d s₁).1 in
        (get_entity_session_by_id v codec later d.session_id s₂ ≡ (ok none, s₂))
        × (store_entity_session v codec later e ttl s₂ ≡ (ok false, s₂))
  touch_after_remove now t later ttl d e c s le le' same there dumped =
      let s₁ = (delete_entity_session v codec now d.entity_id s).1 in
      let s₂ = (touch_entity_session v codec t d s₁).1 in
      let gone = removed_cells now t d c s le there dumped in
      let touched = touch_entity_session-cell v codec t d s₁ in
      let i : v.cell later (index_key d.session_id) s₂ ≡ none =
        v.cell-later t later (index_key d.session_id) s₂ le'
        ∙ ap (survive later) (simp key_laws at (touched (index_key d.session_id)) ∙ gone.0) in
      let back : Cell = record {
        value = codec.dump (record d { last_activity = t });
        deadline = none;
      } in
      let b : v.cell later (entity_key e.entity_id) s₂ ≡ some back = rw same (
        v.cell-later t later (entity_key d.entity_id) s₂ le'
        ∙ ap (survive later) (
            simp eq_refl at (touched (entity_key d.entity_id))
            ∙ ap (λ o. kept o (codec.dump (record d { last_activity = t }))) gone.1)) in
      (
        by_id-none v codec later d.session_id s₂ i,
        store_entity_session-taken v codec later ttl e s₂ back b,
      )
