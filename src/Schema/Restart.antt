-- ===== src/Schema/Restart.antt =====
-- `create_db_and_tables` of app/database/__init__.py on a database that has tables already.
use iot_server.Prelude.{◌≡◌, String, Bool, true, List, [], ◌∷◌, ◌&&◌}
use iot_server.Schema.{Class}
use iot_server.Schema.Engine.{Schema, has_table}

abbrev Has : String → Schema → Type 0
Has name s = has_table name s.tables ≡ true

-- Each class has its table.
unfoldable all_there : List Class → Schema → Bool
unfolding has_table
all_there [] s = true
all_there (c ∷ cs) s = has_table c.table_name s.tables && all_there cs s
