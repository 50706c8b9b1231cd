-- ===== src/Tests/Tables.antt =====
-- The theorems on the tables, the migration and the middlewares at concrete inputs.
use mathlib.Core.List.{Memᴰ}
use iot_server.Prelude.{◌≡◌, refl, true, false, none, some, List, [], ◌∷◌, ◌||◌, ◌⊎◌, ℕ}
use iot_server.Valkey.Memory.{memory, no_cells}
use iot_server.Http.{Result, ok, err, Exception}
use iot_server.E2e.Middleware.{Request, Response, Answer}
use iot_server.Schema.{Class, Relationship, one, Table, required, uuid, primary_key}
use iot_server.Schema.Engine.{Schema, create, drop}
use iot_server.Schema.Migration.{Database, seen}
use iot_server.Schema.People.{non_critical_personal_data_class}
use iot_server.Schema.Declared.{declared}
use iot_server.Schema.Start.{create_all}
use iot_server.Schema.Relations.{find_class, find_relationship, refers_to, declared-mutual}
use iot_server.App.{Incoming, serve, chosen_id}
use iot_server.App.Layers.{IsDefended, serve-IsDefended, serve-blind}
use iot_server.Tests.Libraries.{crypto, parsing, session_json, zeros}

seen_self : (r : Result Schema) → seen (λ s. s) r ≡ r
seen_self (ok s) = refl
seen_self (err x) = refl

abbrev catalog_only : Database
catalog_only = record {
  State = Schema;
  catalog = λ s. s;
  run_create = create;
  run_drop = drop;
  seen-run_create = λ c s. seen_self (create c s);
  seen-run_drop = λ d s. seen_self (drop d s);
}

-- A table from before the class had its columns.
abbrev older_table : Table
older_table = record {
  name = "service";
  columns = required "id" uuid ∷ [];
  constraints = primary_key "id" ∷ [];
}

abbrev older : Schema
older = record { tables = older_table ∷ []; indexes = [] }

abbrev schema_of : Result Schema → Schema
schema_of (ok s) = s
schema_of (err x) = older

abbrev started : Schema
started = schema_of (create_all catalog_only declared older)

abbrev to_sensitive : Relationship
to_sensitive = one "sensitive_data" "sensitive_data" "non_critical_data"

first_class : Memᴰ non_critical_personal_data_class declared
unfolding declared
first_class = Memᴰ.head refl

first_relationship : Memᴰ to_sensitive non_critical_personal_data_class.relationships
unfolding non_critical_personal_data_class
first_relationship = Memᴰ.head refl

declared-mutual_example :
    let c = non_critical_personal_data_class in
    (d : Class) × (q : Relationship) × (find_class "sensitive_data" declared ≡ some d)
    × (find_relationship "non_critical_data" d.relationships ≡ some q)
    × (q.table ≡ c.table_name)
    × (q.back_populates ≡ "sensitive_data")
    × (refers_to d.table_name c.fields || refers_to c.table_name d.fields ≡ true)
declared-mutual_example =
    declared-mutual non_critical_personal_data_class to_sensitive first_class first_relationship

abbrev asked : Request
asked = record {
  path = "/docs";
  method = "GET";
  session_header = none;
  content_length = none;
  body = [];
}

abbrev routes : Incoming → List ℕ → memory.Store → Result Answer × memory.Store
routes i body s = (ok (record { status = 200; headers = []; body = body }), s)

serve-IsDefended_example :
    let answer =
      serve crypto parsing memory session_json 9
        (zeros 12)
        none
        (λ t. false)
        "new"
        false
        true
        routes
        asked
        "x"
        no_cells in
    ((x : Exception) × (answer.0 ≡ err x))
    ⊎ ((r : Response) × (answer.0 ≡ ok r) × IsDefended (chosen_id (λ t. false) "new" "x") r)
serve-IsDefended_example =
    serve-IsDefended crypto parsing memory session_json 9 (zeros 12) none (λ t. false) "new" false
      true routes asked "x" no_cells

serve-blind_example :
    serve crypto parsing memory session_json 9
      (zeros 12)
      none
      (λ t. false)
      "new"
      false
      true
      routes
      asked
      "x"
      no_cells
    ≡ serve crypto parsing memory session_json 9
        (zeros 12)
        none
        (λ t. false)
        "new"
        false
        true
        (λ i. routes (record i { tenant_id = none }))
        asked
        "x"
        no_cells
serve-blind_example =
    serve-blind crypto parsing memory session_json 9 (zeros 12) none (λ t. false) "new" false true
      routes asked "x" no_cells
