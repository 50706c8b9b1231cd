-- ===== src/Session/Models.antt =====
-- app/shared/session/models.py, and the JSON text in which Valkey keeps a model.
use iot_server.Prelude.{ℕ, ◌≡◌, ◌≢◌, String, Bool, List}

-- `json.dumps` and `json.loads` with pydantic's checks, for the models of a type: what was dumped
-- is read back.
pub data Loaded (A : Type 0) : Type 0 where
  loaded : A → Loaded A
  -- a JSONDecodeError, or the ValueError of pydantic
  value_error : Loaded A
  -- a JSON text that is no object
  type_error : Loaded A

pub record Codec (A : Type 0) : Type 0 where
  pub dump : A → String
  pub load : String → Loaded A
  pub load-dump : (a : A) → load (dump a) ≡ loaded a
  pub dump-ne-empty : (a : A) → dump a ≢ ""

-- Datetimes are seconds; `metadata` pairs keys with the JSON text of their values.
pub record EntitySessionData : Type 0 where
  pub session_id : String
  pub entity_id : String
  pub key_session : String
  pub ip_address : String
  pub metadata : List (String × String)
  pub created_at : ℕ
  pub last_activity : ℕ

pub record SessionData : Type 0 where
  pub user_id : String
  pub token_id : String
  pub refresh_token : String
  pub email : String
  pub account_type : String
  pub is_master : Bool
  pub ip_address : String
  pub user_agent : String
  pub created_at : ℕ
  pub last_activity : ℕ

pub record SessionTokens : Type 0 where
  pub access_token : String
  pub refresh_token : String
  pub token_type : String
