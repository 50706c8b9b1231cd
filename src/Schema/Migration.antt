-- ===== src/Schema/Migration.antt =====
-- Running alembic/versions/dd0913759ae6_baseline.py on a database, as its tables and indexes show it.
use iot_server.Prelude.{
  ◌≡◌, refl, String, Bool, true, false, List, [], ◌∷◌, str_eq, not, ◌&&◌, ◌||◌, if◌then◌else◌,
}
use iot_server.Http.{Result, ok, err, python}
use iot_server.Schema.{
  ColumnType, uuid, auto_string, date_time, boolean, integer, numeric, priority, Column, Create,
  create_table, create_index, Drop,
}
use iot_server.Schema.Engine.{Schema, create, drop, and_then}
use iot_server.Schema.Baseline.{imported, upgrade}

abbrev pub seen : {S : Type 0} → (S → Schema) → Result S → Result Schema
seen catalog (ok s) = ok (catalog s)
seen catalog (err x) = err x

-- A database: its catalog shows the tables and indexes, and a statement changes the catalog as
-- documented.
pub record Database : Type 1 where
  pub State : Type 0
  pub catalog : State → Schema
  pub run_create : Create → State → Result State
  pub run_drop : Drop → State → Result State
  pub seen-run_create :
      (c : Create) (s : State) → seen catalog (run_create c s) ≡ create c (catalog s)
  pub seen-run_drop : (d : Drop) (s : State) → seen catalog (run_drop d s) ≡ drop d (catalog s)

unfoldable pub is_bound : String → List String → Bool
is_bound name [] = false
is_bound name (n ∷ names) = str_eq n name || is_bound name names

unfoldable pub is_auto_string : ColumnType → Bool
is_auto_string auto_string = true
is_auto_string uuid = false
is_auto_string date_time = false
is_auto_string boolean = false
is_auto_string integer = false
is_auto_string (numeric p s) = false
is_auto_string priority = false

-- A column of the type `sqlmodel.sql.sqltypes.AutoString()` uses the name `sqlmodel`.
unfoldable pub names_sqlmodel : List Column → Bool
unfolding is_auto_string
names_sqlmodel [] = false
names_sqlmodel (c ∷ cs) = is_auto_string c.type_ || names_sqlmodel cs

unfoldable pub needs_sqlmodel : Create → Bool
unfolding names_sqlmodel
needs_sqlmodel (create_table t) = names_sqlmodel t.columns
needs_sqlmodel (create_index name table columns is_unique) = false

module _ (db : Database) where
  open db use {State, catalog, run_create, run_drop, seen-run_create, seen-run_drop}

  unfoldable pub statement : List String → Create → State → Result State
  unfolding needs_sqlmodel is_bound
  statement scope c s =
      if needs_sqlmodel c && not (is_bound "sqlmodel" scope)
      then err (python "NameError")
      else run_create c s

  -- `upgrade`, with the names that the module binds
  unfoldable pub migrate : List String → List Create → State → Result State
  unfolding statement
  migrate scope [] s = ok s
  migrate scope (c ∷ cs) s = and_then (migrate scope cs) (statement scope c s)

  -- `downgrade`
  unfoldable pub revert : List Drop → State → Result State
  revert [] s = ok s
  revert (d ∷ ds) s = and_then (revert ds) (run_drop d s)

  -- The migration raises a NameError before its first statement, whatever the database holds.
  pub migrate-imported : (s : State) → migrate imported upgrade s ≡ err (python "NameError")
  unfolding migrate upgrade and_then statement needs_sqlmodel is_bound names_sqlmodel is_auto_string
  migrate-imported s = refl

  pub seen_inv :
      (r : Result State) (c : Schema)
      → seen catalog r ≡ ok c
      → (s : State) × (r ≡ ok s) × (catalog s ≡ c)
  seen_inv (ok s) c e = (s, refl, cc)
  seen_inv (err x) c e = cc
