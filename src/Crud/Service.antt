-- ===== src/Crud/Service.antt =====
-- `BaseService` of app/shared/base_domain/service.py, and the requests of the CRUD controllers of
-- app/shared/base_domain/controller.py. A service may refuse an id to the current user in its own
-- `get_by_id`, which the parameter `visible` decides; ids and times of new rows are arguments.
use iot_server.Prelude.{
  ℕ, String, Bool, Option, none, some, List, [], ◌∷◌, str_eq, if◌then◌else◌, ◌||◌,
}
use iot_server.Http.{Exec, Result, ok, err, Exception, not_found}
use iot_server.Policy.{CurrentUser}
use iot_server.Crud
use iot_server.Crud.{Model, AuditLog, Db}

-- A changed field, with `str` of its old and its new value.
pub record Change : Type 0 where
  pub key : String
  pub from_ : String
  pub to_ : String

abbrev pub audit_excluded_fields : List String
audit_excluded_fields = "id" ∷ "created_at" ∷ "updated_at" ∷ []

unfoldable pub is_in : String → List String → Bool
is_in x [] = Bool.false
is_in x (y ∷ ys) = str_eq x y || is_in x ys

module _ {T V C P : Type 0} (m : Model T V C P) where
  -- The loop of `_log_audit` over the fields.
  unfoldable pub changes : List String → T → T → List String → List Change
  unfolding is_in
  changes excluded old new [] = []
  changes excluded old new (key ∷ keys) =
      let rest = changes excluded old new keys in
      if is_in key excluded
      then rest
      else (if m.same (m.value old key) (m.value new key)
          then rest
          else record { key = key; from_ = m.str (m.value old key); to_ = m.str (m.value new key) }
            ∷ rest)

module _ {T V C P : Type 0} (m : Model T V C P) (entity_name : String) (excluded : List String)
    (dumps : List Change → String) (user : Option CurrentUser) (visible : String → Bool) where
  unfoldable pub details_of : List Change → Option String
  details_of [] = none
  details_of (c ∷ cs) = some (dumps (c ∷ cs))

  unfoldable pub entry_of : CurrentUser → String → String → Option String → AuditLog
  entry_of u action id details = record {
    account_id = u.account_id;
    account_type = u.account_type;
    action = action;
    resource_type = entity_name;
    resource_id = id;
    details = details;
  }

  -- `_log_audit`, with the id of the row and the details.
  unfoldable pub log_audit : Option CurrentUser → String → String → Option String → Db T → Db T
  unfolding entry_of Crud.log
  log_audit none action id details db = db
  log_audit (some u) action id details db = Crud.log (entry_of u action id details) db

  abbrev pub missing : Exception
  missing = not_found entity_name

  unfoldable pub found : Option T → Result T
  found none = err missing
  found (some t) = if visible (m.id t) then ok t else err missing

  unfoldable pub get_by_id : String → Exec (Db T) T
  unfolding found Crud.get_by_id
  get_by_id id db = (found (Crud.get_by_id m id db.rows), db)

  unfoldable pub log_created : Result T × Db T → Result T × Db T
  unfolding log_audit
  log_created (err e, db) = (err e, db)
  log_created (ok t, db) = (ok t, log_audit user "create" (m.id t) none db)

  unfoldable pub create_entity : C → String → Exec (Db T) T
  unfolding log_created Crud.create
  create_entity payload new db = log_created (Crud.create m (m.build payload new) db)

  unfoldable pub log_updated : T → Result T × Db T → Result T × Db T
  unfolding log_audit details_of changes
  log_updated old (err e, db) = (err e, db)
  log_updated old (ok t, db) =
      (ok t, log_audit user "update" (m.id t) (details_of (changes m excluded old t m.fields)) db)

  unfoldable pub update_found : ℕ → P → Result T → Exec (Db T) T
  unfolding log_updated Crud.update
  update_found now payload (err e) db = (err e, db)
  update_found now payload (ok old) db =
      log_updated old (Crud.update m now (m.sqlmodel_update payload old) db)

  unfoldable pub update_entity : String → ℕ → P → Exec (Db T) T
  unfolding update_found found
  update_entity id now payload db =
      update_found now payload (found (Crud.get_by_id m id db.rows)) db

  unfoldable pub log_deleted : T → Result (Unit {0}) × Db T → Result (Unit {0}) × Db T
  unfolding log_audit
  log_deleted t (err e, db) = (err e, db)
  log_deleted t (ok u, db) = (ok u, log_audit user "delete" (m.id t) none db)

  unfoldable pub delete_found : Result T → Exec (Db T) (Unit {0})
  unfolding log_deleted Crud.delete
  delete_found (err e) db = (err e, db)
  delete_found (ok t) db = log_deleted t (Crud.delete m t db)

  unfoldable pub delete_entity : String → Exec (Db T) (Unit {0})
  unfolding delete_found found
  delete_entity id db = delete_found (found (Crud.get_by_id m id db.rows)) db

-- The requests that the routes of `FullCrudApiController` pass to a service, with what the server draws,
-- and their answers.
pub data Request (C P : Type 0) : Type 0 where
  retrieve : String → Request C P
  create : C → String → Request C P
  update : String → ℕ → P → Request C P
  delete : String → Request C P

pub data Answer (T : Type 0) : Type 0 where
  entity : T → Answer T
  no_content : Answer T
  refused : Exception → Answer T

unfoldable pub of_entity : {T : Type 0} → Result T → Answer T
of_entity (ok t) = entity t
of_entity (err e) = refused e

unfoldable pub of_done : {T : Type 0} → Result (Unit {0}) → Answer T
of_done (ok _) = no_content
of_done (err e) = refused e

module _ {T V C P : Type 0} (m : Model T V C P) (entity_name : String) (excluded : List String)
    (dumps : List Change → String) (user : Option CurrentUser) (visible : String → Bool) where
  unfoldable pub respond : Request C P → Db T → Answer T × Db T
  unfolding get_by_id create_entity update_entity delete_entity of_entity of_done
  respond (retrieve id) db =
      let r = get_by_id m entity_name excluded dumps user visible id db in (of_entity r.0, r.1)
  respond (create payload new) db =
      let r = create_entity m entity_name excluded dumps user visible payload new db in
      (of_entity r.0, r.1)
  respond (update id now payload) db =
      let r = update_entity m entity_name excluded dumps user visible id now payload db in
      (of_entity r.0, r.1)
  respond (delete id) db =
      let r = delete_entity m entity_name excluded dumps user visible id db in (of_done r.0, r.1)

  -- Requests one after the other, with their answers.
  unfoldable pub serve : List (Request C P) → Db T → List (Answer T) × Db T
  unfolding respond
  serve [] db = ([], db)
  serve (q ∷ qs) db =
      let (a, db') = respond q db in let (rest, end) = serve qs db' in (a ∷ rest, end)
