-- ===== src/E2e/SessionStore.antt =====
-- app/shared/e2e/session.py: `E2ESessionRepository`. The keys of its prefix hold what this module
-- wrote, or texts that are no JSON; other JSON texts are not modelled.
use Prim.Native.String.{◌++◌}
use iot_server.Prelude.{ℕ, ◌≡◌, String, Bool, false, Option, none, some, str_eq, if◌then◌else◌}
use iot_server.Valkey.{Valkey, Cell}
use iot_server.Http.{Exec, ok, ◌>>=◌}

-- The account context of a session.
pub record Account : Type 0 where
  pub account_id : String
  pub sensitive_data_id : String
  pub account_type : String
  pub email : String
  pub is_master : Bool
  pub auth_method : String

pub record E2ESession : Type 0 where
  pub session_id : String
  pub session_key : String
  pub account : Account
  pub created_at : ℕ

-- `json.dumps` and `json.loads` on session records; `none` is a JSONDecodeError.
pub record SessionJson : Type 0 where
  pub dumps : E2ESession → String
  pub loads : String → Option E2ESession
  pub loads-dumps : (r : E2ESession) → loads (dumps r) ≡ some r
  pub dumps-ne-empty : (r : E2ESession) → str_eq (dumps r) "" ≡ false

unfoldable pub e2e_key : String → String
e2e_key session_id = "e2e_session:" ++ session_id

module _ (v : Valkey) (json : SessionJson) (now : ℕ) where
  -- `session_id` is the new UUID, which the method returns.
  unfoldable pub create_session : String → String → Account → ℕ → Exec v.Store String
  create_session session_id session_key_hex account ttl s =
      let r : E2ESession = record {
        session_id = session_id;
        session_key = session_key_hex;
        account = account;
        created_at = now;
      } in
      (ok session_id, v.setex now (e2e_key session_id) ttl (json.dumps r) s)

  unfoldable pub decoded : String → Option E2ESession → Exec v.Store (Option E2ESession)
  decoded session_id none s = (ok none, v.delete now (e2e_key session_id) s)
  decoded session_id (some r) s = (ok (some r), s)

  unfoldable pub read_session : String → Option Cell → Exec v.Store (Option E2ESession)
  unfolding decoded
  read_session session_id none s = (ok none, s)
  read_session session_id (some c) s =
      if str_eq c.value "" then (ok none, s) else decoded session_id (json.loads c.value) s

  unfoldable pub get_session : String → Exec v.Store (Option E2ESession)
  unfolding read_session
  get_session session_id s = read_session session_id (v.cell now (e2e_key session_id) s) s

  unfoldable pub delete_session : String → Exec v.Store (Unit {0})
  delete_session session_id s = (ok tt, v.delete now (e2e_key session_id) s)

  unfoldable pub replace_session :
      String → String → ℕ → Option E2ESession → Exec v.Store (Option String)
  unfolding delete_session
  replace_session session_id new_id ttl none s = (ok none, s)
  replace_session session_id new_id ttl (some r) s =
      let (_, s') = delete_session session_id s in
      (
        ok (some new_id),
        v.setex now (e2e_key new_id) ttl (json.dumps (record r { session_id = new_id })) s',
      )

  -- `new_id` is the new UUID.
  unfoldable pub renew_session : String → String → ℕ → Exec v.Store (Option String)
  renew_session session_id new_id ttl = do
    found ← get_session session_id
    replace_session session_id new_id ttl found
