-- ===== src/Schema/Start.antt =====
-- `create_db_and_tables` of app/database/__init__.py: `SQLModel.metadata.create_all` creates the declared
-- tables that are missing, and leaves those that exist as they are.
use Prim.Native.String.{◌++◌ as ◌&◌}
use iot_server.Prelude.{
  ◌≡◌, refl, sym, String, Bool, true, false, Option, none, some, List, [], ◌∷◌, ◌++◌, not, ◌&&◌,
  if◌then◌else◌, inl, inr,
}
use iot_server.Http.{Result, ok, Result-cases}
use iot_server.Schema.{
  Column, Constraint, primary_key, unique_constraint, foreign_key, Table, Create, create_table,
  create_index, Field, Class,
}
use iot_server.Schema.Engine.{Schema, has_table, and_then, create_each}
use iot_server.Schema.Migration.{Database, seen}

unfoldable pub columns_of : List Field → List Column
columns_of [] = []
columns_of (f ∷ fs) =
    record { name = f.name; type_ = f.type_; is_nullable = f.is_nullable } ∷ columns_of fs

unfoldable pub target_of : String → Option (String × String) → List Constraint
target_of column none = []
target_of column (some (table, name)) = foreign_key column table name ∷ []

-- A unique field that is indexed has a unique index in place of a constraint.
unfoldable pub constraints_of : List Field → List Constraint
unfolding target_of
constraints_of [] = []
constraints_of (f ∷ fs) =
    (if f.is_primary then primary_key f.name ∷ [] else [])
    ++ (if f.is_unique && not f.is_indexed then unique_constraint (f.name ∷ []) ∷ [] else [])
    ++ target_of f.name f.target
    ++ constraints_of fs

unfoldable pub together : List (List String) → List Constraint
together [] = []
together (u ∷ us) = unique_constraint u ∷ together us

unfoldable pub indexes_of : String → List Field → List Create
indexes_of table [] = []
indexes_of table (f ∷ fs) =
    let rest = indexes_of table fs in
    if f.is_indexed
    then create_index ("ix_" & (table & ("_" & f.name))) table (f.name ∷ []) f.is_unique ∷ rest
    else rest

unfoldable pub table_of : Class → Table
unfolding columns_of constraints_of together
table_of c = record {
  name = c.table_name;
  columns = columns_of c.fields;
  constraints = constraints_of c.fields ++ together c.unique_together;
}

unfoldable pub create_class : Class → List Create
unfolding table_of indexes_of
create_class c = create_table (table_of c) ∷ indexes_of c.table_name c.fields

-- What the documentation says of the catalog.
unfoldable pub create_missing : List Class → Schema → Result Schema
unfolding has_table and_then create_each create_class
create_missing [] s = ok s
create_missing (c ∷ cs) s =
    let made = create_each (create_class c) s in
    and_then (create_missing cs) (if has_table c.table_name s.tables then ok s else made)

module _ (db : Database) where
  open db use {State, catalog, run_create, seen-run_create}

  unfoldable pub run_each : List Create → State → Result State
  unfolding and_then
  run_each [] s = ok s
  run_each (c ∷ cs) s = and_then (run_each cs) (run_create c s)

  unfoldable pub create_all : List Class → State → Result State
  unfolding run_each and_then has_table create_class
  create_all [] s = ok s
  create_all (c ∷ cs) s =
      let made = run_each (create_class c) s in
      and_then (create_all cs) (if has_table c.table_name (catalog s).tables then ok s else made)

  seen-run_each :
      (cs : List Create) (s : State) → seen catalog (run_each cs s) ≡ create_each cs (catalog s)
  unfolding run_each create_each and_then
  seen-run_each [] s = refl
  seen-run_each (c ∷ cs) s = elim (Result-cases (run_create c s)) [
    | inl (u, e) ↦ rw (sym (seen-run_create c s), e) (seen-run_each cs u)
    | inr (x, e) ↦ rw (sym (seen-run_create c s), e) refl
  ]

  seen-next :
      (cs : List Class) (exists : Bool) (made : List Create) (s : State)
      → ((u : State) → seen catalog (create_all cs u) ≡ create_missing cs (catalog u))
      → seen catalog (and_then (create_all cs) (if exists then ok s else run_each made s))
        ≡ and_then
            (create_missing cs)
            (if exists then ok (catalog s) else create_each made (catalog s))
  unfolding and_then
  seen-next cs true made s later = later s
  seen-next cs false made s later = elim (Result-cases (run_each made s)) [
    | inl (u, e) ↦ rw (sym (seen-run_each made s), e) (later u)
    | inr (x, e) ↦ rw (sym (seen-run_each made s), e) refl
  ]

  pub seen-create_all :
      (cs : List Class) (s : State) → seen catalog (create_all cs s) ≡ create_missing cs (catalog s)
  unfolding create_all create_missing
  seen-create_all [] s = refl
  seen-create_all (c ∷ cs) s =
      seen-next cs (has_table c.table_name (catalog s).tables) (create_class c) s
        λ u. seen-create_all cs u
