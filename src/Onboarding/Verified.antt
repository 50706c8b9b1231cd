-- ===== src/Onboarding/Verified.antt =====
-- A registration of app/domain/onboarding/service.py, its verification, and the login.
use iot_server.Prelude.{
  ℕ, ◌+◌, ◌≤◌, ◌<◌, ◌≡◌, refl, ◌∙◌, ap, arith, String, Bool, true, false, none, some, List, ◌∷◌,
  if◌then◌else◌, eq_refl, lt→ltb, le→not_ltb,
}
use iot_server.Valkey.{Valkey, survive, expiring}
use iot_server.Http.{ok, err, already_exists}
use iot_server.E2e.Crypto.{CryptoLibrary, hash_password}
use iot_server.E2e.Login.{
  NonCriticalPersonalData, SensitiveData, Db, Resolved, by_email, by_id, by_sensitive_id, is_active,
  accepted, choose, first_model, resolve_found, resolve_username,
}
use iot_server.Onboarding.{
  token_ttl, token_key, Drawn, Site, activate, with_account, store_token, register_unless, register,
  no_token, verify_row, verify_cell, verify,
}

active_row :
    (db : Db) (d : SensitiveData) (n : NonCriticalPersonalData)
    → by_id d.non_critical_data_id db.non_critical ≡ some n
    → is_active db d ≡ ok n.is_active
unfolding is_active
active_row db d n e = rw (is_active, e) refl

module _ (lib : CryptoLibrary) (drawn : Drawn) (email password : String) where
  -- The account that a registration makes.
  abbrev pub new_account : Resolved
  new_account = record {
    entity = record {
      id = drawn.administrator_id;
      sensitive_data_id = drawn.sensitive_id;
      is_master = false;
    };
    data_row = record {
      id = drawn.sensitive_id;
      non_critical_data_id = drawn.non_critical_id;
      email = email;
      password_hash = hash_password lib password drawn.salt;
      password_salt = drawn.salt;
    };
    account_type = "administrator";
    is_master = false;
  }

  by_id-head :
      (active : Bool) (rows : List NonCriticalPersonalData)
      → by_id drawn.non_critical_id
          (record { id = drawn.non_critical_id; is_active = active } ∷ rows)
        ≡ some (record { id = drawn.non_critical_id; is_active = active })
  unfolding by_id
  by_id-head active rows = rw (eq_refl drawn.non_critical_id) refl

  activate-head :
      (rows : List NonCriticalPersonalData)
      → activate drawn.non_critical_id
          (record { id = drawn.non_critical_id; is_active = false } ∷ rows)
        ≡ record { id = drawn.non_critical_id; is_active = true } ∷ rows
  unfolding activate
  activate-head rows = rw (eq_refl drawn.non_critical_id) refl

  -- A new account resolves by what `is_active` is in its row.
  resolve-row :
      (active : Bool) (rows : List NonCriticalPersonalData) (db : Db)
      → resolve_username
          (record (with_account lib drawn email password db) {
            non_critical = record { id = drawn.non_critical_id; is_active = active } ∷ rows;
          })
          email
        ≡ ok (if active then some new_account else none)
  unfolding resolve_username resolve_found first_model choose accepted with_account by_email
      by_sensitive_id
  resolve-row active rows db =
      let site : Db = record (with_account lib drawn email password db) {
        non_critical = record { id = drawn.non_critical_id; is_active = active } ∷ rows;
      } in
      rw
        (
          eq_refl email,
          eq_refl drawn.sensitive_id,
          active_row site new_account.data_row _ (by_id-head active rows),
        )
        refl

module _ (lib : CryptoLibrary) (v : Valkey) (drawn : Drawn) (email password : String) (now : ℕ)
    (s : Site v.Store) where
  abbrev registered : Site v.Store
  registered = record {
    db = with_account lib drawn email password s.db;
    store = store_token lib v now drawn.token drawn.non_critical_id s.store;
  }

  register-unknown :
      by_email email s.db.sensitive ≡ none
      → register lib v now drawn email password s ≡ (ok drawn.token, registered)
  unfolding register register_unless
  register-unknown e = rw e refl

  token-registered :
      (t : ℕ)
      → now ≤ t
      → v.cell t (token_key drawn.token) registered.store
        ≡ survive t (expiring drawn.non_critical_id (now + token_ttl))
  unfolding store_token
  token-registered t le =
      let key = token_key drawn.token in
      let written =
        v.cell-setex now token_ttl key key drawn.non_critical_id s.store (omega arith) in
      v.cell-later now t key registered.store le ∙ ap (survive t) (rw (eq_refl key) at written)

  abbrev verified : ℕ → Site v.Store
  verified t = record {
    db = record registered.db {
      non_critical = activate drawn.non_critical_id registered.db.non_critical;
    };
    store = v.delete t (token_key drawn.token) registered.store;
  }

  verify-live :
      (t : ℕ)
      → now ≤ t
      → t < now + token_ttl
      → verify lib v t drawn.token registered ≡ (ok tt, verified t)
  unfolding verify verify_cell verify_row with_account
  verify-live t le lt =
      rw
        (
          token-registered t le,
          lt→ltb t (now + token_ttl) lt,
          by_id-head lib drawn email password false s.db.non_critical,
        )
        refl

  token-verified : (t t' : ℕ) → t ≤ t' → v.cell t' (token_key drawn.token) (verified t).store ≡ none
  token-verified t t' le =
      let key = token_key drawn.token in
      let gone = v.cell-delete t key key registered.store in
      v.cell-later t t' key (verified t).store le ∙ ap (survive t') (rw (eq_refl key) at gone)

  -- The account of a registration under a new e-mail address resolves for no login until its token is
  -- given within the lifetime of the token; then it does, and the token is refused from there on.
  pub verify-register :
      (t t' : ℕ)
      → now ≤ t
      → t < now + token_ttl
      → t ≤ t'
      → by_email email s.db.sensitive ≡ none
      → (s₁ : Site v.Store) × (s₂ : Site v.Store) × (register lib v now drawn email password s
          ≡ (ok drawn.token, s₁))
        × (resolve_username s₁.db email ≡ ok none)
        × (verify lib v t drawn.token s₁ ≡ (ok tt, s₂))
        × (resolve_username s₂.db email ≡ ok (some (new_account lib drawn email password)))
        × (verify lib v t' drawn.token s₂ ≡ no_token lib v t' s₂)
  unfolding with_account verify verify_cell
  verify-register t t' le lt later e = (
    registered,
    verified t,
    register-unknown e,
    resolve-row lib drawn email password false s.db.non_critical s.db,
    verify-live t le lt,
    rw (activate-head lib drawn email password s.db.non_critical)
        (resolve-row lib drawn email password true s.db.non_critical s.db),
    rw (token-verified t t' later) refl,
  )

  -- When the lifetime of its token has passed, a registration can neither be verified nor repeated.
  pub register-expired :
      (t : ℕ) (again : Drawn) (other_password : String)
      → now + token_ttl ≤ t
      → by_email email s.db.sensitive ≡ none
      → (s₁ : Site v.Store) × (register lib v now drawn email password s ≡ (ok drawn.token, s₁))
        × (verify lib v t drawn.token s₁ ≡ no_token lib v t s₁)
        × (register lib v t again email other_password s₁ ≡ (err (already_exists "Account"), s₁))
  unfolding verify verify_cell register register_unless with_account by_email
  register-expired t again other_password le e = (
    registered,
    register-unknown e,
    rw (token-registered t (omega arith), le→not_ltb t (now + token_ttl) le) refl,
    rw (eq_refl email) refl,
  )
