-- ===== src/Puzzle/Human.antt =====
-- `HumanPasswordAuth` of app/shared/middleware/auth/humans.py, which auth_rc/human.py passes on.
use iot_server.Prelude.{String, Bool, true, false, Option, none, some, str_eq, not, if◌then◌else◌}
use iot_server.E2e.Crypto.{CryptoLibrary, verify_password}
use iot_server.E2e.Login.{SensitiveData}
use iot_server.Puzzle.{Outcome, valid, invalid}

-- The class of an entity.
pub data HumanClass : Type 0 where
  administrator : HumanClass
  manager : HumanClass
  user : HumanClass
  other : HumanClass

unfoldable pub is_administrator : HumanClass → Bool
is_administrator administrator = true
is_administrator manager = false
is_administrator user = false
is_administrator other = false

unfoldable pub is_manager : HumanClass → Bool
is_manager administrator = false
is_manager manager = true
is_manager user = false
is_manager other = false

unfoldable pub is_user : HumanClass → Bool
is_user administrator = false
is_user manager = false
is_user user = true
is_user other = false

-- An entity, with `is_active` if it has that attribute.
pub record HumanEntity : Type 0 where
  pub class : HumanClass
  pub is_active : Option Bool

unfoldable pub has_left : Option Bool → Bool
has_left none = false
has_left (some active) = not active

module _ (lib : CryptoLibrary) (password : String) where
  -- `_verify_common`
  unfoldable pub verify_common : HumanEntity → Option SensitiveData → Outcome
  unfolding verify_password has_left
  verify_common e none = invalid "Invalid credentials"
  verify_common e (some d) =
      if not (verify_password lib password d.password_salt d.password_hash)
      then invalid "Invalid credentials"
      else (if has_left e.is_active then invalid "Account is inactive" else valid)

  unfoldable pub authenticate_administrator : HumanEntity → Option SensitiveData → Outcome
  unfolding verify_common is_administrator
  authenticate_administrator e d =
      if not (is_administrator e.class)
      then invalid "Invalid administrator account"
      else verify_common e d

  unfoldable pub authenticate_manager : HumanEntity → Option SensitiveData → Outcome
  unfolding verify_common is_manager
  authenticate_manager e d =
      if not (is_manager e.class) then invalid "Invalid manager account" else verify_common e d

  unfoldable pub authenticate_user : HumanEntity → Option SensitiveData → Outcome
  unfolding verify_common is_user
  authenticate_user e d =
      if not (is_user e.class) then invalid "Invalid user account" else verify_common e d

  -- `HumanPasswordAuth.authenticate`
  unfoldable pub authenticate_human : String → HumanEntity → Option SensitiveData → Outcome
  unfolding authenticate_administrator authenticate_manager authenticate_user
  authenticate_human account_type e d =
      if str_eq account_type "administrator"
      then authenticate_administrator e d
      else (if str_eq account_type "manager"
          then authenticate_manager e d
          else (if str_eq account_type "user"
              then authenticate_user e d
              else invalid "Invalid human entity type"))
