-- ===== src/Personal/Accounts.antt =====
-- `PersonalDataService` of app/domain/personal_data/service.py over its three tables. Each of the inner
-- services commits by itself; the ids of new rows are arguments.
use iot_server.Prelude.{
  String, Bool, false, Option, none, some, List, [], ◌∷◌, str_eq, ◌||◌, if◌then◌else◌,
}
use iot_server.Http.{Exec, Result, ok, err, Exception, python, not_found, already_exists}

pub record NonCriticalRow : Type 0 where
  pub id : String
  pub first_name : String
  pub last_name : String

pub record SensitiveRow : Type 0 where
  pub id : String
  pub non_critical_data_id : String
  pub email : String
  pub curp : Option String
  pub rfc : Option String

-- A row of administrator, manager or user.
pub record Person : Type 0 where
  pub id : String
  pub sensitive_data_id : String

pub record People : Type 0 where
  pub non_critical : List NonCriticalRow
  pub sensitive : List SensitiveRow
  pub persons : List Person

pub record PersonalDataCreate : Type 0 where
  pub first_name : String
  pub last_name : String
  pub email : String
  pub curp : String
  pub rfc : String

abbrev pub any {ℓ} : {A : Type ℓ} → (A → Bool) → List A → Bool
any p [] = false
any p (x ∷ xs) = p x || any p xs

-- `SensitiveDataService.email_exists`
abbrev pub email_exists : String → List SensitiveRow → Bool
email_exists email = any (λ (r : SensitiveRow). str_eq r.email email)

-- NULL is equal to nothing.
abbrev pub same_value : Option String → Option String → Bool
same_value none b = false
same_value (some a) none = false
same_value (some a) (some b) = str_eq a b

-- The columns of sensitive_data that are unique.
abbrev pub clashes : SensitiveRow → SensitiveRow → Bool
clashes r s =
    (str_eq s.id r.id || str_eq s.non_critical_data_id r.non_critical_data_id)
    || (str_eq s.email r.email || (same_value s.curp r.curp || same_value s.rfc r.rfc))

abbrev pub integrity_error : Exception
integrity_error = python "IntegrityError"

unfoldable pub insert_non_critical : NonCriticalRow → Exec People (Unit {0})
insert_non_critical r db =
    if any (λ (s : NonCriticalRow). str_eq s.id r.id) db.non_critical
    then (err integrity_error, db)
    else (ok tt, record db { non_critical = r ∷ db.non_critical })

unfoldable pub insert_sensitive : SensitiveRow → Exec People (Unit {0})
insert_sensitive r db =
    if any (clashes r) db.sensitive
    then (err integrity_error, db)
    else (ok tt, record db { sensitive = r ∷ db.sensitive })

unfoldable pub insert_person : Person → Exec People Person
insert_person p db =
    if any (λ (q : Person). str_eq q.id p.id || str_eq q.sensitive_data_id p.sensitive_data_id)
      db.persons
    then (err integrity_error, db)
    else (ok p, record db { persons = p ∷ db.persons })

-- The rest of the method, if the part before it did not raise.
abbrev pub then_ : {B : Type 0} → Result (Unit {0}) × People → Exec People B → Result B × People
then_ (ok _, db) f = f db
then_ (err e, db) f = (err e, db)

-- The ids of the three rows.
pub record Ids : Type 0 where
  pub non_critical : String
  pub sensitive : String
  pub person : String

abbrev pub non_critical_row : PersonalDataCreate → Ids → NonCriticalRow
non_critical_row p ids = record {
  id = ids.non_critical;
  first_name = p.first_name;
  last_name = p.last_name;
}

abbrev pub sensitive_row : PersonalDataCreate → Ids → SensitiveRow
sensitive_row p ids = record {
  id = ids.sensitive;
  non_critical_data_id = ids.non_critical;
  email = p.email;
  curp = some p.curp;
  rfc = some p.rfc;
}

abbrev pub person_row : Ids → Person
person_row ids = record { id = ids.person; sensitive_data_id = ids.sensitive }

unfoldable pub create_entity : PersonalDataCreate → Ids → Exec People Person
unfolding insert_non_critical insert_sensitive insert_person
create_entity payload ids db =
    if email_exists payload.email db.sensitive
    then (err (already_exists "Account"), db)
    else then_ (insert_non_critical (non_critical_row payload ids) db) λ db.
      then_ (insert_sensitive (sensitive_row payload ids) db) (insert_person (person_row ids))

unfoldable pub get_person : String → List Person → Option Person
get_person id [] = none
get_person id (p ∷ ps) = if str_eq p.id id then some p else get_person id ps

unfoldable pub get_sensitive : String → List SensitiveRow → Option SensitiveRow
get_sensitive id [] = none
get_sensitive id (r ∷ rs) = if str_eq r.id id then some r else get_sensitive id rs

abbrev pub rows_without {ℓ} : {A : Type ℓ} → (A → Bool) → List A → List A
rows_without p [] = []
rows_without p (x ∷ xs) = let rest = rows_without p xs in if p x then rest else x ∷ rest

-- `super().delete_entity` and then the two inner services, in one step: the three commits succeed where no
-- other table refers to the rows, as is taken for granted here.
unfoldable pub delete_rows : Person → SensitiveRow → People → People
delete_rows p r db = record {
  non_critical =
      rows_without (λ (n : NonCriticalRow). str_eq n.id r.non_critical_data_id) db.non_critical;
  sensitive = rows_without (λ (s : SensitiveRow). str_eq s.id r.id) db.sensitive;
  persons = rows_without (λ (q : Person). str_eq q.id p.id) db.persons;
}

-- The foreign key makes the row of sensitive_data exist; without it Python raises an AttributeError.
unfoldable pub delete_with : Person → Option SensitiveRow → Exec People (Unit {0})
unfolding delete_rows
delete_with p none db = (err (python "AttributeError"), db)
delete_with p (some r) db = (ok tt, delete_rows p r db)

unfoldable pub delete_found : Option Person → Exec People (Unit {0})
unfolding delete_with get_sensitive
delete_found none db = (err (not_found "User"), db)
delete_found (some p) db = delete_with p (get_sensitive p.sensitive_data_id db.sensitive) db

-- `get_by_id` finds the person; the check of `UserService` on who may see it is in Access.
unfoldable pub delete_entity : String → Exec People (Unit {0})
unfolding delete_found get_person
delete_entity id db = delete_found (get_person id db.persons) db
