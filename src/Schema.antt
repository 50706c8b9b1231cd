-- ===== src/Schema.antt =====
-- Tables as app/database/model.py declares them, as the migration of alembic/versions creates them, and
-- as the database keeps them. `priority` is the enumeration of that name.
pub mod People
pub mod Things
pub mod Records
pub mod Declared
pub mod Baseline
pub mod Engine
pub mod Migration
pub mod Start
pub mod Drift
pub mod Restart
pub mod Relations
use iot_server.Prelude.{
  ℕ, String, Bool, true, false, Option, none, some, List, [], ◌∷◌, str_eq, ◌==◌, ◌&&◌, ◌||◌,
  if◌then◌else◌,
}

pub data ColumnType : Type 0 where
  uuid : ColumnType
  auto_string : ColumnType
  date_time : ColumnType
  boolean : ColumnType
  integer : ColumnType
  numeric : ℕ → ℕ → ColumnType
  priority : ColumnType

-- A column in the database.
pub record Column : Type 0 where
  pub name : String
  pub type_ : ColumnType
  pub is_nullable : Bool

abbrev pub required : String → ColumnType → Column
required name t = record { name = name; type_ = t; is_nullable = false }

abbrev pub nullable : String → ColumnType → Column
nullable name t = record { name = name; type_ = t; is_nullable = true }

pub data Constraint : Type 0 where
  primary_key : String → Constraint
  unique_constraint : List String → Constraint
  -- the column, and the table and column that it refers to
  foreign_key : String → String → String → Constraint

pub record Table : Type 0 where
  pub name : String
  pub columns : List Column
  pub constraints : List Constraint

pub record Index : Type 0 where
  pub name : String
  pub table : String
  pub columns : List String
  pub is_unique : Bool

-- The statements of a migration.
pub data Create : Type 0 where
  create_table : Table → Create
  create_index : String → String → List String → Bool → Create

pub data Drop : Type 0 where
  drop_index : String → String → Drop
  drop_table : String → Drop

-- A field of a class: `default` is the text of a default or of the function that makes one.
pub record Field : Type 0 where
  pub name : String
  pub type_ : ColumnType
  pub is_nullable : Bool
  pub is_primary : Bool
  pub is_unique : Bool
  pub is_indexed : Bool
  pub target : Option (String × String)
  pub default : Option String
  pub limits : List (String × ℕ)

-- An attribute that follows a foreign key: its name, the table of its class, the attribute that leads
-- back, and whether it is a list.
pub record Relationship : Type 0 where
  pub name : String
  pub table : String
  pub back_populates : String
  pub is_list : Bool

pub record Class : Type 0 where
  pub table_name : String
  pub fields : List Field
  pub unique_together : List (List String)
  pub relationships : List Relationship

abbrev pub one : String → String → String → Relationship
one name table back = record { name = name; table = table; back_populates = back; is_list = false }

abbrev pub many : String → String → String → Relationship
many name table back = record { name = name; table = table; back_populates = back; is_list = true }

abbrev pub column : String → ColumnType → Field
column name t = record {
  name = name;
  type_ = t;
  is_nullable = false;
  is_primary = false;
  is_unique = false;
  is_indexed = false;
  target = none;
  default = none;
  limits = [];
}

abbrev pub optional : Field → Field
optional f = record f { is_nullable = true }

abbrev pub primary : Field → Field
primary f = record f { is_primary = true }

abbrev pub unique : Field → Field
unique f = record f { is_unique = true }

abbrev pub indexed : Field → Field
indexed f = record f { is_indexed = true }

abbrev pub references : String → String → Field → Field
references table name f = record f { target = some (table, name) }

abbrev pub default_to : String → Field → Field
default_to text f = record f { default = some text }

abbrev pub made_by : String → Field → Field
made_by text f = record f { default = some text }

abbrev pub limited : String → ℕ → Field → Field
limited limit n f = record f { limits = (limit, n) ∷ f.limits }

-- `BaseTable` of app/shared/base_domain/model.py
abbrev pub base_fields : List Field
base_fields =
    made_by "uuid4" (primary (indexed (column "id" uuid)))
    ∷ made_by "utcnow" (column "created_at" date_time)
    ∷ made_by "utcnow" (column "updated_at" date_time)
    ∷ []
