-- ===== src/E2e/Changed.antt =====
-- The login of app/domain/auth/service.py after a change of the password by the route of
-- app/domain/auth/controller.py.
use iot_server.Prelude.{
  ◌≡◌, ap, ◌∙◌, String, Bool, true, false, Option, none, some, List, [], ◌∷◌, str_eq, eq_iff,
  eq_refl, Bool-cases, inl, inr,
}
use iot_server.Http.{Result, ok, err}
use iot_server.E2e.Crypto.{CryptoLibrary, hash_password, verify_password}
use iot_server.E2e.Login.{
  SensitiveData, Human, Db, Resolved, by_email, by_sensitive_id, is_active, accepted, choose,
  first_model, human_models, resolve_found, resolve_username,
}
use iot_server.E2e.SessionStore.{Account}
use iot_server.E2e.Password.{
  row_of, row_of-id, with_password, set_password, change_found, change_password,
}
use iot_server.E2e.Account.{optional_id, current_account, change_for, change_password_route}

module _ (lib : CryptoLibrary) (salt new : String) where
  abbrev changed : SensitiveData → SensitiveData
  changed d = with_password lib salt new d

  -- The resolved account with the new credentials.
  abbrev pub renewed : Resolved → Resolved
  renewed r = record r { data_row = changed r.data_row }

  by_email-email :
      (email : String) (ds : List SensitiveData) {d : SensitiveData}
      → by_email email ds ≡ some d
      → d.email ≡ email
  unfolding by_email
  by_email-email email [] h = cc
  by_email-email email (x ∷ ds) {d} h = elim (Bool-cases (str_eq x.email email)) [
    | inl yes_ ↦
        let same : some x ≡ some d = rw yes_ at h in
        let owner : x.email ≡ email = (eq_iff _ _).0 yes_ in cc
    | inr no_ ↦ by_email-email email ds (rw no_ at h)
  ]

  by_email-set_password :
      (id email : String) (ds : List SensitiveData) {d : SensitiveData}
      → row_of id ds ≡ some d
      → by_email email ds ≡ some d
      → d.id ≡ id
      → d.email ≡ email
      → by_email email (set_password lib salt id new ds) ≡ some (changed d)
  unfolding row_of by_email set_password with_password
  by_email-set_password id email [] f g same mail_ = cc
  by_email-set_password id email (x ∷ ds) {d} f g same mail_ = elim (Bool-cases (str_eq x.id id)) [
    | inl yes_ ↦
        let here : some x ≡ some d = rw yes_ at f in
        let e : x ≡ d = cc in
        elim (Bool-cases (str_eq x.email email)) [
          | inl mail ↦ rw (yes_, mail) (ap (λ y. some (changed y)) e)
          | inr no_ ↦
              let hit : str_eq x.email email ≡ true =
                (eq_iff _ _).1 (ap (λ (y : SensitiveData). y.email) e ∙ mail_) in
              let bad : true ≡ false = cc in cc
        ]
    | inr no_ ↦ elim (Bool-cases (str_eq x.email email)) [
      | inl mail ↦
          let here : some x ≡ some d = rw mail at g in
          let e : x ≡ d = cc in
          let hit : str_eq x.id id ≡ true =
            (eq_iff _ _).1 (ap (λ (y : SensitiveData). y.id) e ∙ same) in
          let bad : true ≡ false = cc in cc
      | inr other ↦
          rw (no_, other)
            (by_email-set_password id email ds (rw no_ at f) (rw other at g) same mail_)
    ]
  ]

  accepted-renewed :
      (a : Result Bool) (r : Resolved) {q : Resolved}
      → accepted a r ≡ ok (some q)
      → accepted a (renewed r) ≡ ok (some (renewed q))
  unfolding accepted
  accepted-renewed (err e) r h = cc
  accepted-renewed (ok false) r h = cc
  accepted-renewed (ok true) r {q} h = let e : r ≡ q = cc in ap (λ x. ok (some (renewed x))) e

  module _ (db : Db) (d : SensitiveData) (sensitive : List SensitiveData) where
    choose-renewed :
        (kind : String) (has_master : Bool) (o : Option Human)
        (later later' : Result (Option Resolved)) {q : Resolved}
        → (later ≡ ok (some q) → later' ≡ ok (some (renewed q)))
        → choose db d kind has_master o later ≡ ok (some q)
        → choose (record db { sensitive = sensitive }) (changed d) kind has_master o later'
          ≡ ok (some (renewed q))
    unfolding choose is_active with_password
    choose-renewed kind has_master none later later' keeps h = keeps h
    choose-renewed kind has_master (some p) later later' keeps h =
        accepted-renewed (is_active db d) _ h

    first_model-renewed :
        (models : List (String × Bool × List Human)) {q : Resolved}
        → first_model db d models ≡ ok (some q)
        → first_model (record db { sensitive = sensitive }) (changed d) models
          ≡ ok (some (renewed q))
    unfolding first_model with_password
    first_model-renewed [] h = cc
    first_model-renewed ((kind, has_master, table) ∷ rest) h =
        choose-renewed kind has_master (by_sensitive_id d.id table) (first_model db d rest)
          (first_model (record db { sensitive = sensitive }) (changed d) rest)
          (first_model-renewed rest) h

  -- With the current password of the account of a session and another new one, the route changes the password;
  -- where the account resolved for a login by its e-mail address, it does afterwards too, with credentials that
  -- the new password fits.
  pub resolve_username-change_password_route :
      (is_uuid : String → Bool) (current email : String) (account : Account) (db : Db)
      (d : SensitiveData) {r : Resolved}
      → is_uuid account.account_id ≡ true
      → is_uuid account.sensitive_data_id ≡ true
      → str_eq account.sensitive_data_id "" ≡ false
      → row_of account.sensitive_data_id db.sensitive ≡ some d
      → by_email email db.sensitive ≡ some d
      → resolve_username db email ≡ ok (some r)
      → verify_password lib current d.password_salt d.password_hash ≡ true
      → verify_password lib new d.password_salt d.password_hash ≡ false
      → (db' : Db) × (change_password_route is_uuid lib salt current new (some account) db
          ≡ (ok "Password updated successfully", db'))
        × (resolve_username db' email ≡ ok (some (renewed r)))
        × (verify_password lib new (changed d).password_salt (changed d).password_hash ≡ true)
  unfolding change_password_route change_for current_account optional_id change_password
      change_found resolve_username resolve_found with_password verify_password
  resolve_username-change_password_route is_uuid current email account db d u u' full found mail
        known right other =
      let same = row_of-id lib salt account.sensitive_data_id db.sensitive d found in
      let sensitive = set_password lib salt account.sensitive_data_id new db.sensitive in
      (
        record db { sensitive = sensitive },
        rw (full, u, u', found, right, other)
            (ap
              (λ (i : String). (
                ok "Password updated successfully",
                record db { sensitive = set_password lib salt i new db.sensitive },
              ))
              same),
        rw
            (by_email-set_password account.sensitive_data_id email db.sensitive found mail same
              (by_email-email email db.sensitive mail))
            (first_model-renewed db d sensitive (human_models db) (rw mail at known)),
        eq_refl (hash_password lib new salt),
      )
