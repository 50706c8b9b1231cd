-- ===== src/Tests/Rows.antt =====
-- The theorems on tables behind the base service, at a concrete table.
use iot_server.Prelude.{
  ℕ, ◌≡◌, refl, String, Bool, true, false, Option, none, some, List, [], ◌∷◌, map, str_eq,
  if◌then◌else◌,
}
use iot_server.Prelude.Lists.{length}
use iot_server.Policy.{CurrentUser}
use iot_server.Crud.{Model, Db, content}
use iot_server.Crud.Service.{
  Change, Request, retrieve, create, update, delete, serve, changes, audit_excluded_fields,
}
use iot_server.Crud.Refinement.{replay, serve_refines}
use iot_server.Crud.Audit.{bare, trail, serve_audited}

record Row : Type 0 where
  id : String
  name : String
  updated_at : ℕ

column : Row → String → String
column r field = if str_eq field "name" then r.name else (if str_eq field "id" then r.id else "")

-- The names of rows are unique, and another table refers to the first row.
abbrev is_named : String → Option Row → Bool
is_named name none = false
is_named name (some r) = str_eq r.name name

abbrev rows_model : Model Row String String String
rows_model = record {
  id = λ r. r.id;
  fields = "id" ∷ "name" ∷ [];
  value = column;
  same = str_eq;
  str = λ s. s;
  build = λ name new. record { id = new; name = name; updated_at = 0 };
  sqlmodel_update = λ name r. record r { name = name };
  touch = λ now r. record r { updated_at = now };
  refuses_insert = λ held r. is_named r.name (held "r0");
  refuses_update = λ held r. false;
  refuses_delete = λ held r. str_eq r.id "r0";
  id-build = λ c new. refl;
  id-sqlmodel_update = λ p t. refl;
  id-touch = λ now t. refl;
}

abbrev dumped : List Change → String
dumped cs = "{}"

abbrev editor : CurrentUser
editor = record {
  account_id = "a1";
  account_type = "administrator";
  email = "a@b.mx";
  is_master = false;
  sensitive_data_id = "s1";
}

abbrev start : Db Row
start = record { rows = record { id = "r0"; name = "old"; updated_at = 1 } ∷ []; audit = [] }

abbrev calls : List (Request String String)
calls =
    create "first" "r1"
    ∷ update "r0" 7 "new"
    ∷ create "again" "r1"
    ∷ create "new" "r2"
    ∷ delete "r0"
    ∷ delete "r1"
    ∷ retrieve "r1"
    ∷ []

abbrev anyone : String → Bool
anyone id = true

serve_refines_example :
    let r = serve rows_model "Row" audit_excluded_fields dumped (some editor) anyone calls start in
    let a =
      replay rows_model "Row" audit_excluded_fields dumped
        (some editor)
        anyone
        calls
        (content rows_model start) in
    (r.0 ≡ a.0) × (content rows_model r.1 ≡ a.1)
serve_refines_example =
    serve_refines rows_model "Row" audit_excluded_fields dumped (some editor) anyone calls start

serve_audited_example :
    let r = serve rows_model "Row" audit_excluded_fields dumped (some editor) anyone calls start in
    map (bare rows_model "Row" audit_excluded_fields dumped (some editor) anyone) r.1.audit
    ≡ trail rows_model "Row" audit_excluded_fields dumped (some editor) anyone calls r.0 []
serve_audited_example =
    serve_audited rows_model "Row" audit_excluded_fields dumped (some editor) anyone calls start

three_entries :
    length
      (serve rows_model "Row" audit_excluded_fields dumped (some editor) anyone calls start).1.audit
    ≡ 3
unfolding serve changes
three_entries = refl

abbrev three_rows : List Row
three_rows =
    record { id = "r0"; name = "a"; updated_at = 1 }
    ∷ record { id = "r1"; name = "b"; updated_at = 1 }
    ∷ record { id = "r2"; name = "c"; updated_at = 1 }
    ∷ []
