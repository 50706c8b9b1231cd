-- ===== src/Tests/Passwords.antt =====
-- The theorem on the change of a password at a concrete input.
use iot_server.Prelude.{
  ℕ, ◌==◌, if◌then◌else◌, ◌≡◌, refl, String, true, false, some, List, [], ◌∷◌, str_eq,
}
use iot_server.Http.{ok}
use iot_server.E2e.Crypto.{CryptoLibrary, hash_password, verify_password}
use iot_server.E2e.SessionStore.{Account}
use iot_server.E2e.Login.{
  SensitiveData, Human, Db, Resolved, by_email, by_sensitive_id, accepted, is_active,
  resolve_username,
}
use iot_server.E2e.Password.{row_of, with_password}
use iot_server.E2e.Account.{change_password_route}
use iot_server.E2e.Changed.{renewed, resolve_username-change_password_route}
use iot_server.Tests.Libraries.{crypto}

-- A digest that tells the two passwords apart.
abbrev written : String → List ℕ
written s = if str_eq s "old" then 1 ∷ [] else (if str_eq s "salta" then 3 ∷ [] else [])

abbrev digest : List ℕ → String
digest [] = "b"
digest (n ∷ ns) = if n == 1 then "a" else "good"

abbrev library : CryptoLibrary
library = record crypto { utf8 = written; sha256_hexdigest = digest }

abbrev row : SensitiveData
row = record {
  id = "s1";
  non_critical_data_id = "n1";
  email = "u@x";
  password_hash = hash_password library "old" "salt";
  password_salt = "salt";
}

abbrev human : Human
human = record { id = "a1"; sensitive_data_id = "s1"; is_master = true }

abbrev db : Db
db = record {
  non_critical = record { id = "n1"; is_active = true } ∷ [];
  sensitive = row ∷ [];
  administrators = human ∷ [];
  managers = [];
  users = [];
}

abbrev account : Account
account = record {
  account_id = "a1";
  sensitive_data_id = "s1";
  account_type = "administrator";
  email = "u@x";
  is_master = true;
  auth_method = "e2e";
}

abbrev resolved : Resolved
resolved = record {
  entity = human;
  data_row = row;
  account_type = "administrator";
  is_master = true;
}

known : resolve_username db "u@x" ≡ ok (some resolved)
unfolding resolve_username by_sensitive_id accepted is_active
known = refl

found : row_of "s1" db.sensitive ≡ some row
unfolding row_of
found = refl

addressed : by_email "u@x" db.sensitive ≡ some row
unfolding by_email
addressed = refl

right : verify_password library "old" row.password_salt row.password_hash ≡ true
unfolding verify_password hash_password
right = refl

other : verify_password library "new" row.password_salt row.password_hash ≡ false
unfolding verify_password hash_password
other = refl

resolve_username-change_password_route_example :
    let row' = with_password library "pepper" "new" row in
    (db' : Db) × (change_password_route (λ s. true) library "pepper" "old" "new" (some account) db
      ≡ (ok "Password updated successfully", db'))
    × (resolve_username db' "u@x" ≡ ok (some (renewed library "pepper" "new" resolved)))
    × (verify_password library "new" row'.password_salt row'.password_hash ≡ true)
resolve_username-change_password_route_example =
    resolve_username-change_password_route library "pepper" "new" (λ s. true) "old" "u@x" account db
      row refl refl refl found addressed known right other
