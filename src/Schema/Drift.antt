-- ===== src/Schema/Drift.antt =====
-- The columns of the classes of app/database/model.py against those of the tables in the database.
use iot_server.Prelude.{
  ◌≡◌, refl, sym, ◌∙◌, ap, String, Bool, true, false, Option, none, some, List, [], ◌∷◌, ◌++◌,
  str_eq, not, ◌==◌, ◌&&◌, ◌||◌, if◌then◌else◌,
}
use iot_server.Http.{Result, ok, err}
use iot_server.Schema.{
  ColumnType, uuid, auto_string, date_time, boolean, integer, numeric, priority, Column, Table,
  Field, Class,
}
use iot_server.Schema.Engine.{Schema, find_table, and_then, create}
use iot_server.Schema.Declared.{declared}
use iot_server.Schema.Migration.{Database, seen_inv}
use iot_server.Schema.Start.{create_missing, create_all, seen-create_all}

unfoldable pub has_column : String → List Column → Bool
has_column name [] = false
has_column name (c ∷ cs) = str_eq c.name name || has_column name cs

unfoldable pub lacking_in : String → List Column → List Field → List (String × String)
unfolding has_column
lacking_in table columns [] = []
lacking_in table columns (f ∷ fs) =
    let rest = lacking_in table columns fs in
    if has_column f.name columns then rest else (table, f.name) ∷ rest

unfoldable pub columns_in : Option Table → List Column
columns_in none = []
columns_in (some t) = t.columns

-- The columns that the classes write and the database does not have.
unfoldable pub lacking : List Class → Schema → List (String × String)
unfolding lacking_in columns_in find_table
lacking [] s = []
lacking (c ∷ cs) s =
    lacking_in c.table_name (columns_in (find_table c.table_name s.tables)) c.fields ++ lacking cs s

abbrev pub empty : Schema
empty = record { tables = []; indexes = [] }

unfoldable pub same_type : ColumnType → ColumnType → Bool
same_type uuid uuid = true
same_type auto_string auto_string = true
same_type date_time date_time = true
same_type boolean boolean = true
same_type integer integer = true
same_type (numeric p s) (numeric q t) = p == q && s == t
same_type priority priority = true
same_type a b = false

-- Whether no column has the name of the field and another type or nullability.
unfoldable pub fits : Field → List Column → Bool
unfolding same_type
fits f [] = true
fits f (c ∷ cs) =
    (not (str_eq c.name f.name)
      || same_type c.type_ f.type_
        && (c.is_nullable && f.is_nullable || not c.is_nullable && not f.is_nullable))
    && fits f cs

unfoldable pub all_fit_in : List Column → List Field → Bool
unfolding fits
all_fit_in columns [] = true
all_fit_in columns (f ∷ fs) = fits f columns && all_fit_in columns fs

unfoldable pub all_fit : List Class → Schema → Bool
unfolding all_fit_in columns_in find_table
all_fit [] s = true
all_fit (c ∷ cs) s =
    all_fit_in (columns_in (find_table c.table_name s.tables)) c.fields && all_fit cs s

abbrev lacks : Result Schema → List (String × String)
lacks (ok s) = lacking declared s
lacks (err x) = []

abbrev fit : Result Schema → Bool
fit (ok s) = all_fit declared s
fit (err x) = false

fresh-lacks : lacks (create_missing declared empty) ≡ []
unfolding create_missing declared and_then create lacking
fresh-lacks = refl

fresh-fit : fit (create_missing declared empty) ≡ true
unfolding create_missing declared and_then create all_fit
fresh-fit = refl

fit-found :
    (r : Result Schema)
    → fit r ≡ true
    → (c : Schema) × (r ≡ ok c) × (lacks r ≡ lacking declared c) × (all_fit declared c ≡ true)
fit-found (ok c) h = (c, refl, refl, h)
fit-found (err x) h = cc

module _ (db : Database) where
  open db use {State, catalog}

  -- On an empty database the start of the server makes every column of every class, with its type and
  -- nullability.
  pub create_all-empty :
      (s : State)
      → catalog s ≡ empty
      → (s₁ : State) × (create_all db declared s ≡ ok s₁)
        × (lacking declared (catalog s₁) ≡ [])
        × (all_fit declared (catalog s₁) ≡ true)
  create_all-empty s none_ =
      let (c, made, lost, types) = fit-found (create_missing declared empty) fresh-fit in
      let (s₁, e, same) =
        seen_inv db (create_all db declared s) c
          (seen-create_all db declared s ∙ ap (create_missing declared) none_ ∙ made) in
      (
        s₁,
        e,
        ap (lacking declared) same ∙ sym lost ∙ fresh-lacks,
        ap (all_fit declared) same ∙ types,
      )
