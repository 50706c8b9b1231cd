-- ===== src/Crud.antt =====
-- app/shared/base_domain/repository.py and model.py, and app/domain/audit/repository.py: a table of
-- rows behind `BaseRepository`, and the audit log.
pub mod Service
pub mod Refinement
pub mod Audit
pub mod Paging
use iot_server.Prelude.{
  ℕ, ◌≡◌, String, Bool, Option, none, some, List, [], ◌∷◌, str_eq, if◌then◌else◌, ◌&&◌,
}
use iot_server.Prelude.Lists.{length, take, drop}
use iot_server.Http.{Exec, Exception, ok, err, python}

-- What the base classes use of a table class `T`, of its schemas `C` and `P`, and of pydantic: the
-- columns and the value of one, `str` of a value, a new row from a payload and an id, a row with the
-- fields of a payload that are set, and `touch`. No update schema has a field `id`. Of the database, it says
-- which rows its other constraints refuse, such as unique columns and foreign keys, given what the table
-- holds and while other tables stay as they are: a row to insert, a row to write, and a row to delete, to
-- which others may refer.
pub record Model (T V C P : Type 0) : Type 0 where
  pub id : T → String
  pub fields : List String
  pub value : T → String → V
  pub same : V → V → Bool
  pub str : V → String
  pub build : C → String → T
  pub sqlmodel_update : P → T → T
  pub touch : ℕ → T → T
  pub refuses_insert : (String → Option T) → T → Bool
  pub refuses_update : (String → Option T) → T → Bool
  pub refuses_delete : (String → Option T) → T → Bool
  pub id-build : (c : C) (new : String) → id (build c new) ≡ new
  pub id-sqlmodel_update : (p : P) (t : T) → id (sqlmodel_update p t) ≡ id t
  pub id-touch : (now : ℕ) (t : T) → id (touch now t) ≡ id t

-- A row of the table audit_log, without its own id and time.
pub record AuditLog : Type 0 where
  pub account_id : String
  pub account_type : String
  pub action : String
  pub resource_type : String
  pub resource_id : String
  pub details : Option String

pub record Db (T : Type 0) : Type 0 where
  pub rows : List T
  pub audit : List AuditLog

abbrev pub integrity_error : Exception
integrity_error = python "IntegrityError"

module _ {T V C P : Type 0} (m : Model T V C P) where
  -- `session.get(model, id)`
  unfoldable pub get_by_id : String → List T → Option T
  get_by_id id [] = none
  get_by_id id (t ∷ ts) = if str_eq (m.id t) id then some t else get_by_id id ts

  -- What the table holds under each id.
  abbrev pub content : Db T → String → Option T
  content db id = get_by_id id db.rows

  -- A second row with one primary key raises an IntegrityError, as a row does that another constraint
  -- refuses.
  unfoldable pub insert : Option T → T → Exec (Db T) T
  insert none t db =
      if m.refuses_insert (content db) t
      then (err integrity_error, db)
      else (ok t, record db { rows = t ∷ db.rows })
  insert (some old) t db = (err integrity_error, db)

  unfoldable pub create : T → Exec (Db T) T
  unfolding insert get_by_id
  create t db = insert (get_by_id (m.id t) db.rows) t db

  -- The row with the primary key of `t`, written.
  unfoldable pub replace : T → List T → List T
  replace t [] = []
  replace t (u ∷ us) =
      let rest = replace t us in if str_eq (m.id u) (m.id t) then t ∷ rest else u ∷ rest

  unfoldable pub update : ℕ → T → Exec (Db T) T
  unfolding replace
  update now t db =
      let touched = m.touch now t in
      if m.refuses_update (content db) touched
      then (err integrity_error, db)
      else (ok touched, record db { rows = replace touched db.rows })

  -- `DELETE … WHERE id = …`
  unfoldable pub remove : String → List T → List T
  remove id [] = []
  remove id (u ∷ us) = let rest = remove id us in if str_eq (m.id u) id then rest else u ∷ rest

  unfoldable pub delete : T → Exec (Db T) (Unit {0})
  unfolding remove
  delete t db =
      if m.refuses_delete (content db) t
      then (err integrity_error, db)
      else (ok tt, record db { rows = remove (m.id t) db.rows })

  -- One page and the number of all rows.
  unfoldable pub get_all : ℕ → ℕ → List T → List T × ℕ
  get_all offset limit rows = (take limit (drop offset rows), length rows)

-- `AuditRepository.log`: the new entry is put in front.
unfoldable pub log : {T : Type 0} → AuditLog → Db T → Db T
log entry db = record db { audit = entry ∷ db.audit }

unfoldable pub of_account : String → List AuditLog → List AuditLog
of_account id [] = []
of_account id (e ∷ es) =
    let rest = of_account id es in if str_eq e.account_id id then e ∷ rest else rest

-- Entries are in the order of their times, the latest first, as `order_by(created_at.desc())` wants.
unfoldable pub get_by_account : {T : Type 0} → String → ℕ → ℕ → Db T → List AuditLog × ℕ
unfolding of_account
get_by_account account_id offset limit db =
    let found = of_account account_id db.audit in (take limit (drop offset found), length found)

unfoldable pub of_resource : String → String → List AuditLog → List AuditLog
of_resource type id [] = []
of_resource type id (e ∷ es) =
    let rest = of_resource type id es in
    if str_eq e.resource_type type && str_eq e.resource_id id then e ∷ rest else rest

unfoldable pub get_by_resource : {T : Type 0} → String → String → Db T → List AuditLog
unfolding of_resource
get_by_resource resource_type resource_id db = of_resource resource_type resource_id db.audit
