-- ===== src/Schema/Engine.antt =====
-- What the statements of a migration do to a database, as its documentation says: a table needs a new
-- name and the tables that it refers to, an index needs a new name and its table; a table goes with its
-- indexes, unless another one refers to it. The enumerations are not in it: PostgreSQL keeps a type such
-- as `priority` as an object of its own, which a migration may create and leave.
use iot_server.Prelude.{
  String, Bool, true, false, Option, none, some, List, [], ◌∷◌, str_eq, not, ◌&&◌, ◌||◌,
  if◌then◌else◌,
}
use iot_server.Http.{Result, ok, err, python}
use iot_server.Schema.{
  Constraint, primary_key, unique_constraint, foreign_key, Table, Index, Create, create_table,
  create_index, Drop, drop_index, drop_table,
}

pub record Schema : Type 0 where
  pub tables : List Table
  pub indexes : List Index

unfoldable pub find_table : String → List Table → Option Table
find_table name [] = none
find_table name (t ∷ ts) = if str_eq t.name name then some t else find_table name ts

unfoldable pub has_table : String → List Table → Bool
has_table name [] = false
has_table name (t ∷ ts) = str_eq t.name name || has_table name ts

unfoldable pub has_index : String → List Index → Bool
has_index name [] = false
has_index name (i ∷ is) = str_eq i.name name || has_index name is

unfoldable pub target_exists : List Table → Constraint → Bool
unfolding has_table
target_exists ts (primary_key c) = true
target_exists ts (unique_constraint cs) = true
target_exists ts (foreign_key c table name) = has_table table ts

unfoldable pub targets_exist : List Table → List Constraint → Bool
unfolding target_exists
targets_exist ts [] = true
targets_exist ts (c ∷ cs) = target_exists ts c && targets_exist ts cs

unfoldable pub refers : String → List Constraint → Bool
refers name [] = false
refers name (primary_key c ∷ cs) = refers name cs
refers name (unique_constraint u ∷ cs) = refers name cs
refers name (foreign_key c table target ∷ cs) = str_eq table name || refers name cs

unfoldable pub is_referred : String → List Table → Bool
unfolding refers
is_referred name [] = false
is_referred name (t ∷ ts) = refers name t.constraints || is_referred name ts

unfoldable pub without_table : String → List Table → List Table
without_table name [] = []
without_table name (t ∷ ts) =
    let rest = without_table name ts in if str_eq t.name name then ts else t ∷ rest

unfoldable pub without_index : String → List Index → List Index
without_index name [] = []
without_index name (i ∷ is) =
    let rest = without_index name is in if str_eq i.name name then is else i ∷ rest

unfoldable pub without_indexes_of : String → List Index → List Index
without_indexes_of table [] = []
without_indexes_of table (i ∷ is) =
    let rest = without_indexes_of table is in if str_eq i.table table then rest else i ∷ rest

unfoldable pub create : Create → Schema → Result Schema
unfolding has_table has_index targets_exist
create (create_table t) s =
    if not (has_table t.name s.tables) && targets_exist s.tables t.constraints
    then ok (record s { tables = t ∷ s.tables })
    else err (python "ProgrammingError")
create (create_index name table columns is_unique) s =
    if not (has_index name s.indexes) && has_table table s.tables
    then ok (record s {
      indexes =
          record { name = name; table = table; columns = columns; is_unique = is_unique }
          ∷ s.indexes;
    })
    else err (python "ProgrammingError")

unfoldable pub drop : Drop → Schema → Result Schema
unfolding has_table has_index is_referred without_table without_index without_indexes_of
drop (drop_index name table) s =
    if has_index name s.indexes
    then ok (record s { indexes = without_index name s.indexes })
    else err (python "ProgrammingError")
drop (drop_table name) s =
    let rest = without_table name s.tables in
    if has_table name s.tables && not (is_referred name rest)
    then ok (record { tables = rest; indexes = without_indexes_of name s.indexes })
    else err (python "ProgrammingError")

unfoldable pub and_then : {A B : Type 0} → (A → Result B) → Result A → Result B
and_then f (ok a) = f a
and_then f (err e) = err e

unfoldable pub create_each : List Create → Schema → Result Schema
unfolding create and_then
create_each [] s = ok s
create_each (c ∷ cs) s = and_then (create_each cs) (create c s)

unfoldable pub drop_each : List Drop → Schema → Result Schema
unfolding drop and_then
drop_each [] s = ok s
drop_each (d ∷ ds) s = and_then (drop_each ds) (drop d s)
