-- ===== src/E2e/Password.antt =====
-- `SharedAuthService.change_password` of app/shared/auth/service.py, on the table of the login; the new
-- salt is an argument.
use iot_server.Prelude.{
  ◌≡◌, refl, ◌∙◌, ap, String, true, false, Option, none, some, List, [], ◌∷◌, str_eq, eq_iff,
  eq_refl, if◌then◌else◌, Bool-cases, inl, inr,
}
use iot_server.Http.{Exec, ok, err, bad_request}
use iot_server.E2e.Crypto.{CryptoLibrary, hash_password, verify_password}
use iot_server.E2e.Login.{SensitiveData, Db}

unfoldable pub row_of : String → List SensitiveData → Option SensitiveData
row_of id [] = none
row_of id (d ∷ ds) = if str_eq d.id id then some d else row_of id ds

module _ (lib : CryptoLibrary) (salt : String) where
  -- The setter of `password`.
  unfoldable pub with_password : String → SensitiveData → SensitiveData
  unfolding hash_password
  with_password password d = record d {
    password_salt = salt;
    password_hash = hash_password lib password salt;
  }

  unfoldable pub set_password : String → String → List SensitiveData → List SensitiveData
  unfolding with_password
  set_password id password [] = []
  set_password id password (d ∷ ds) =
      let later = set_password id password ds in
      if str_eq d.id id then with_password password d ∷ ds else d ∷ later

  unfoldable pub change_found : String → String → Option SensitiveData → Exec Db String
  unfolding set_password verify_password
  change_found current new none db = (err (bad_request "Associated account was not found"), db)
  change_found current new (some d) db =
      if verify_password lib current d.password_salt d.password_hash
      then (if verify_password lib new d.password_salt d.password_hash
          then (err (bad_request "New password must be different from current password"), db)
          else (
            ok "Password updated successfully",
            record db { sensitive = set_password d.id new db.sensitive },
          ))
      else (err (bad_request "Current password is incorrect"), db)

  -- The credentials of the current account are none for a device or an application.
  unfoldable pub change_password : Option String → String → String → Exec Db String
  unfolding change_found row_of
  change_password none current new db =
      (err (bad_request "This entity does not use password authentication"), db)
  change_password (some id) current new db = change_found current new (row_of id db.sensitive) db

  row_of-set_password :
      (id password : String) (ds : List SensitiveData) (d : SensitiveData)
      → row_of id ds ≡ some d
      → row_of id (set_password id password ds) ≡ some (with_password password d)
  unfolding row_of set_password with_password
  row_of-set_password id password [] d e = cc
  row_of-set_password id password (x ∷ ds) d e = elim (Bool-cases (str_eq x.id id)) [
    | inl yes_ ↦
        let same : some x ≡ some d = rw yes_ at e in
        rw (yes_, yes_)
          (ap (λ r. elim r [ none ↦ none | some y ↦ some (with_password password y) ]) same)
    | inr no_ ↦ rw (no_, no_) (row_of-set_password id password ds d (rw no_ at e))
  ]

  pub row_of-id :
      (id : String) (ds : List SensitiveData) (d : SensitiveData)
      → row_of id ds ≡ some d
      → d.id ≡ id
  unfolding row_of
  row_of-id id [] d e = cc
  row_of-id id (x ∷ ds) d e = elim (Bool-cases (str_eq x.id id)) [
    | inl yes_ ↦
        let same : some x ≡ some d = rw yes_ at e in
        let owner : x.id ≡ id = (eq_iff x.id id).0 yes_ in cc
    | inr no_ ↦ row_of-id id ds d (rw no_ at e)
  ]

  -- With the current password and another new one, the credentials of the account hold the hash of the
  -- new one under the new salt, and the new one is accepted.
  pub change_password-row :
      (id current new : String) (db : Db) (d : SensitiveData)
      → row_of id db.sensitive ≡ some d
      → verify_password lib current d.password_salt d.password_hash ≡ true
      → verify_password lib new d.password_salt d.password_hash ≡ false
      → (db' : Db) × (change_password (some id) current new db
          ≡ (ok "Password updated successfully", db'))
        × (row_of id db'.sensitive ≡ some (with_password new d))
        × (verify_password lib new
              (with_password new d).password_salt
              (with_password new d).password_hash
            ≡ true)
  unfolding change_password change_found with_password verify_password
  change_password-row id current new db d found right other = (
    record db { sensitive = set_password d.id new db.sensitive },
    rw (found, right, other) refl,
    ap (λ i. row_of id (set_password i new db.sensitive)) (row_of-id id db.sensitive d found)
        ∙ row_of-set_password id new db.sensitive d found,
    eq_refl (hash_password lib new salt),
  )
