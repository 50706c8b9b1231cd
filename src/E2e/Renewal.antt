-- ===== src/E2e/Renewal.antt =====
-- The sessions of app/shared/e2e/session.py over time: creation, renewal and two renewals at once.
use iot_server.Prelude.{
  ℕ, ◌+◌, ◌≤◌, ◌<◌, ◌≡◌, refl, ap, ◌∙◌, String, false, Option, none, some, str_eq, eq_refl, arith,
  lt→ltb, if◌then◌else◌,
}
use iot_server.Valkey.{Valkey, Cell, survive, expiring}
use iot_server.Http.{ok}
use iot_server.Session.Keys.{prefix_eq}
use iot_server.E2e.SessionStore.{
  Account, E2ESession, SessionJson, e2e_key, create_session, get_session, replace_session,
  renew_session,
}

e2e_key-eq : (a b : String) → str_eq (e2e_key a) (e2e_key b) ≡ str_eq a b
unfolding e2e_key
e2e_key-eq a b = prefix_eq "e2e_session:" a b

module _ (v : Valkey) (json : SessionJson) where
  abbrev cell_of : E2ESession → ℕ → Option Cell
  cell_of r dl = expiring (json.dumps r) dl

  -- A cell that holds a session is read back until its deadline.
  get_session-held :
      (now t dl : ℕ) (session_id : String) (r : E2ESession) (s : v.Store)
      → now ≤ t
      → t < dl
      → v.cell now (e2e_key session_id) s ≡ cell_of r dl
      → get_session v json t session_id s ≡ (ok (some r), s)
  unfolding get_session
  get_session-held now t dl session_id r s le lt e =
      let here : v.cell t (e2e_key session_id) s ≡ cell_of r dl =
        v.cell-later now t (e2e_key session_id) s le ∙ ap (survive t) e ∙ rw (lt→ltb t dl lt) in
      rw (here, json.dumps-ne-empty r, json.loads-dumps r)

  get_session-gone :
      (now t : ℕ) (session_id : String) (s : v.Store)
      → now ≤ t
      → v.cell now (e2e_key session_id) s ≡ none
      → get_session v json t session_id s ≡ (ok none, s)
  unfolding get_session
  get_session-gone now t session_id s le e =
      rw (v.cell-later now t (e2e_key session_id) s le ∙ ap (survive t) e)

  -- A session is found under the id that its creation returned, until its time to live runs out.
  pub get-create :
      (now t ttl : ℕ) (session_id key : String) (account : Account) (s : v.Store)
      → 0 < ttl
      → now ≤ t
      → t < now + ttl
      → let (r, s') = create_session v json now session_id key account ttl s in
        (r ≡ ok session_id)
        × (get_session v json t session_id s' ≡ (
          ok (
              some (record {
                session_id = session_id;
                session_key = key;
                account = account;
                created_at = now;
              })),
          s',
        ))
  unfolding create_session
  get-create now t ttl session_id key account s pos le lt =
      let r : E2ESession = record {
        session_id = session_id;
        session_key = key;
        account = account;
        created_at = now;
      } in
      let s' = v.setex now (e2e_key session_id) ttl (json.dumps r) s in
      (
        refl,
        get_session-held now t (now + ttl) session_id r s' le lt (
            simp eq_refl at (
              v.cell-setex now ttl (e2e_key session_id) (e2e_key session_id) (json.dumps r) s pos)),
      )

  -- What `replace_session` leaves under each id.
  replaced_cell :
      (now ttl : ℕ) (session_id new_id j : String) (r : E2ESession) (s : v.Store)
      → 0 < ttl
      → v.cell now (e2e_key j) (replace_session v json now session_id new_id ttl (some r) s).1 ≡ (
          if str_eq new_id j
          then cell_of (record r { session_id = new_id }) (now + ttl)
          else if str_eq session_id j
          then none
          else v.cell now (e2e_key j) s)
  unfolding replace_session
  replaced_cell now ttl session_id new_id j r s pos = simp e2e_key-eq at (
      v.cell-setex now ttl (e2e_key new_id) (e2e_key j)
        (json.dumps (record r { session_id = new_id })) (v.delete now (e2e_key session_id) s) pos
      ∙ ap
          (λ c.
            if str_eq (e2e_key new_id) (e2e_key j)
            then cell_of (record r { session_id = new_id }) (now + ttl)
            else c)
          (v.cell-delete now (e2e_key session_id) (e2e_key j) s))

  -- A renewal moves a live session, its key and its account unchanged, to the new id, where it lives
  -- for a whole time to live; the old id leads nowhere from then on.
  pub renew-live :
      (now t ttl : ℕ) (session_id new_id : String) (r : E2ESession) (s : v.Store)
      → 0 < ttl
      → now ≤ t
      → t < now + ttl
      → str_eq new_id session_id ≡ false
      → get_session v json now session_id s ≡ (ok (some r), s)
      → let (reply, s') = renew_session v json now session_id new_id ttl s in
        (reply ≡ ok (some new_id))
        × (get_session v json t new_id s' ≡ (ok (some (record r { session_id = new_id })), s'))
        × (get_session v json t session_id s' ≡ (ok none, s'))
  unfolding renew_session
  renew-live now t ttl session_id new_id r s pos le lt fresh live =
      let s' = (replace_session v json now session_id new_id ttl (some r) s).1 in
      rw live (
        unfold replace_session in refl,
        get_session-held now t (now + ttl) new_id (record r { session_id = new_id }) s' le lt
            (simp eq_refl at (replaced_cell now ttl session_id new_id new_id r s pos)),
        get_session-gone now t session_id s' le
            (rw (fresh, eq_refl) at (replaced_cell now ttl session_id new_id session_id r s pos)),
      )

  -- Two renewals that both read the session before either wrote both succeed, and both new ids are
  -- live afterwards.
  pub renew_twice :
      (now ttl : ℕ) (session_id first second : String) (r : E2ESession) (s : v.Store)
      → 0 < ttl
      → str_eq second first ≡ false
      → str_eq session_id first ≡ false
      → get_session v json now session_id s ≡ (ok (some r), s)
      → let s₁ = (replace_session v json now session_id first ttl (some r) s).1 in
        let s₂ = (replace_session v json now session_id second ttl (some r) s₁).1 in
        (get_session v json now first s₂ ≡ (ok (some (record r { session_id = first })), s₂))
        × (get_session v json now second s₂ ≡ (ok (some (record r { session_id = second })), s₂))
  renew_twice now ttl session_id first second r s pos other old live =
      let s₁ = (replace_session v json now session_id first ttl (some r) s).1 in
      let s₂ = (replace_session v json now session_id second ttl (some r) s₁).1 in
      (
        get_session-held now now (now + ttl) first (record r { session_id = first }) s₂
            (omega arith) (omega arith)
            (rw (other, old) at (replaced_cell now ttl session_id second first r s₁ pos)
              ∙ (rw eq_refl at (replaced_cell now ttl session_id first first r s pos))),
        get_session-held now now (now + ttl) second (record r { session_id = second }) s₂
            (omega arith) (omega arith)
            (rw eq_refl at (replaced_cell now ttl session_id second second r s₁ pos)),
      )
