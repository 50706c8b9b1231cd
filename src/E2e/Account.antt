-- ===== src/E2e/Account.antt =====
-- `get_current_account_from_request` of app/shared/auth/service.py, and the route `change_password` of
-- app/domain/auth/controller.py behind it.
use iot_server.Prelude.{String, Bool, Option, none, some, str_eq, ◌&&◌, ◌||◌, if◌then◌else◌}
use iot_server.Http.{Exec, Result, ok, err, http}
use iot_server.E2e.Crypto.{CryptoLibrary}
use iot_server.E2e.Login.{Db}
use iot_server.E2e.SessionStore.{Account}
use iot_server.E2e.Password.{change_password}

pub record CurrentAccount : Type 0 where
  pub account_id : String
  pub sensitive_data_id : Option String
  pub account_type : String
  pub is_master : Bool

unfoldable pub optional_id : String → Option String
optional_id id = if str_eq id "" then none else some id

-- `UUID` is the parser of ids, as a test; a session that the server wrote has all keys.
module _ (is_uuid : String → Bool) where
  unfoldable pub current_account : Option Account → Result CurrentAccount
  unfolding optional_id
  current_account none = err (http 401 "Not authenticated")
  current_account (some a) =
      if is_uuid a.account_id && (str_eq a.sensitive_data_id "" || is_uuid a.sensitive_data_id)
      then ok (record {
        account_id = a.account_id;
        sensitive_data_id = optional_id a.sensitive_data_id;
        account_type = a.account_type;
        is_master = a.is_master;
      })
      else err (http 401 "Invalid authentication context")

  module _ (lib : CryptoLibrary) (salt : String) where
    unfoldable pub change_for : String → String → Result CurrentAccount → Exec Db String
    unfolding change_password
    change_for current_password new_password (err e) db = (err e, db)
    change_for current_password new_password (ok c) db =
        change_password lib salt c.sensitive_data_id current_password new_password db

    -- the route `change_password`, on the account that the middleware left in the request
    unfoldable pub change_password_route : String → String → Option Account → Exec Db String
    unfolding change_for current_account
    change_password_route current_password new_password account db =
        change_for current_password new_password (current_account account) db
