-- ===== src/Personal/Update.antt =====
-- `PersonalDataService.update_entity` of app/domain/personal_data/service.py. The columns of names stand for
-- all of non_critical_personal_data, and the columns of the password are left out.
use iot_server.Prelude.{
  String, Bool, Option, none, some, List, [], ◌∷◌, str_eq, ◌&&◌, ◌||◌, not, if◌then◌else◌,
}
use iot_server.Http.{Exec, Result, ok, err, python, not_found}
use iot_server.Patch.{Given, unset, null, value}
use iot_server.Personal.Accounts.{
  NonCriticalRow, SensitiveRow, Person, People, any, clashes, integrity_error, then_, get_person,
  get_sensitive,
}

pub record PersonalDataUpdate : Type 0 where
  pub first_name : Given
  pub last_name : Given
  pub non_critical_data_id : Given
  pub email : Given
  pub curp : Given
  pub rfc : Given

-- A column that is not nullable, with what a payload sets it to.
unfoldable pub column : Given → String → Result String
column unset old = ok old
column null old = err integrity_error
column (value s) old = ok s

-- A column that is nullable.
unfoldable pub nullable_column : Given → Option String → Option String
nullable_column unset old = old
nullable_column null old = none
nullable_column (value s) old = some s

unfoldable pub with_names : String → Result String → Result String → Result NonCriticalRow
with_names id (err e) last = err e
with_names id (ok first) (err e) = err e
with_names id (ok first) (ok last) = ok (record { id = id; first_name = first; last_name = last })

unfoldable pub new_non_critical : PersonalDataUpdate → NonCriticalRow → Result NonCriticalRow
unfolding column with_names
new_non_critical p r =
    with_names r.id (column p.first_name r.first_name) (column p.last_name r.last_name)

unfoldable pub with_columns :
    String → Result String → Result String → Option String → Option String → Result SensitiveRow
with_columns id (err e) email curp rfc = err e
with_columns id (ok n) (err e) curp rfc = err e
with_columns id (ok n) (ok email) curp rfc =
    ok (record { id = id; non_critical_data_id = n; email = email; curp = curp; rfc = rfc })

unfoldable pub new_sensitive : PersonalDataUpdate → SensitiveRow → Result SensitiveRow
unfolding column nullable_column with_columns
new_sensitive p r =
    with_columns r.id (column p.non_critical_data_id r.non_critical_data_id)
      (column p.email r.email) (nullable_column p.curp r.curp) (nullable_column p.rfc r.rfc)

unfoldable pub get_non_critical : String → List NonCriticalRow → Option NonCriticalRow
get_non_critical id [] = none
get_non_critical id (r ∷ rs) = if str_eq r.id id then some r else get_non_critical id rs

unfoldable pub write_non_critical : NonCriticalRow → List NonCriticalRow → List NonCriticalRow
write_non_critical new [] = []
write_non_critical new (r ∷ rs) =
    let later = write_non_critical new rs in if str_eq r.id new.id then new ∷ rs else r ∷ later

unfoldable pub write_sensitive : SensitiveRow → List SensitiveRow → List SensitiveRow
write_sensitive new [] = []
write_sensitive new (r ∷ rs) =
    let later = write_sensitive new rs in if str_eq r.id new.id then new ∷ rs else r ∷ later

-- Another row has a value of the new one in a unique column.
abbrev pub clashes_other : SensitiveRow → SensitiveRow → Bool
clashes_other new s = not (str_eq s.id new.id) && clashes new s

unfoldable pub commit_non_critical : Result NonCriticalRow → Exec People (Unit {0})
unfolding write_non_critical
commit_non_critical (err e) db = (err e, db)
commit_non_critical (ok new) db =
    (ok tt, record db { non_critical = write_non_critical new db.non_critical })

unfoldable pub update_non_critical :
    PersonalDataUpdate → Option NonCriticalRow → Exec People (Unit {0})
unfolding commit_non_critical new_non_critical
update_non_critical payload none db = (err (not_found "NonCriticalPersonalData"), db)
update_non_critical payload (some r) db = commit_non_critical (new_non_critical payload r) db

unfoldable pub commit_sensitive : Result SensitiveRow → Exec People (Unit {0})
unfolding write_sensitive
commit_sensitive (err e) db = (err e, db)
commit_sensitive (ok new) db =
    if not (any (λ (n : NonCriticalRow). str_eq n.id new.non_critical_data_id) db.non_critical)
      || any (clashes_other new) db.sensitive
    then (err integrity_error, db)
    else (ok tt, record db { sensitive = write_sensitive new db.sensitive })

-- Each of the two inner services commits by itself; the row of the person keeps its columns.
unfoldable pub update_with : PersonalDataUpdate → Person → Option SensitiveRow → Exec People Person
unfolding update_non_critical get_non_critical commit_sensitive new_sensitive
update_with payload p none db = (err (python "AttributeError"), db)
update_with payload p (some r) db =
    then_ (update_non_critical payload (get_non_critical r.non_critical_data_id db.non_critical) db)
      λ db'. then_ (commit_sensitive (new_sensitive payload r) db') λ db''. (ok p, db'')

unfoldable pub update_found : PersonalDataUpdate → Option Person → Exec People Person
unfolding update_with get_sensitive
update_found payload none db = (err (not_found "User"), db)
update_found payload (some p) db =
    update_with payload p (get_sensitive p.sensitive_data_id db.sensitive) db

unfoldable pub update_entity : String → PersonalDataUpdate → Exec People Person
unfolding update_found get_person
update_entity id payload db = update_found payload (get_person id db.persons) db
