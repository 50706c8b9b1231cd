-- ===== src/Tests/Client.antt =====
-- The theorems on the client of http/e2e.py at concrete inputs.
use iot_server.Prelude.{
  ℕ, ◌≡◌, refl, arith, String, true, false, Option, none, some, List, [], ◌∷◌, str_eq, ap, ◌∙◌,
  if◌then◌else◌,
}
use iot_server.Valkey.Memory.{memory, no_cells}
use iot_server.Http.{ok}
use iot_server.E2e.Crypto.{Bytes, hash_password}
use iot_server.E2e.SessionStore.{get_session}
use iot_server.E2e.Login.{
  SensitiveData, Human, Db, Resolved, Draw, LoginJson, by_sensitive_id, accepted, is_active,
  resolve_username, account_context,
}
use iot_server.E2e.Routes.{challenge_route, login_route}
use iot_server.RateLimit.{Request, enforce_request_rate_limit}
use iot_server.Session.Keys.{rate_limit_storage_key}
use iot_server.Client.{World, Network, Messages, ClientDraw, cmd_login}
use iot_server.Client.Connected.{IsServed, respond, cmd_login-connected}
use iot_server.Tests.Encoding.{write_all, read_all, read-write}
use iot_server.Tests.Characters.{codes, of_codes, of_codes-codes}
use iot_server.Tests.Libraries.{crypto, session_json, zeros}

abbrev write : List String → Bytes
write ss = codes (write_all ss)

abbrev read : Bytes → List String
read bs = read_all (of_codes bs)

pub read_written : (ss : List String) → read (write ss) ≡ ss
read_written ss = ap read_all (of_codes-codes (write_all ss)) ∙ read-write ss

abbrev first_of : List String → Option String
first_of [] = none
first_of (a ∷ rest) = some a

abbrev pair_of : List String → Option (String × String)
pair_of [] = none
pair_of (a ∷ []) = none
pair_of (a ∷ b ∷ rest) = some (a, b)

abbrev pub json_login : LoginJson
json_login = record {
  read_random2 = λ b. first_of (read b);
  dump_reply = λ random3 session_id. write (random3 ∷ session_id ∷ []);
}

abbrev pub messages : Messages json_login
messages = record {
  is_json = λ b. true;
  dump_challenge = λ c. write (c.0 ∷ c.1 ∷ []);
  read_salt = λ b. first_of (read b);
  dump_login = λ email payload random iv. write (payload ∷ random ∷ iv ∷ email ∷ []);
  dump_random2 = λ random2. write (random2 ∷ []);
  dump_sealed = λ p. write (p.0 ∷ p.1 ∷ []);
  read_sealed = λ b. pair_of (read b);
  dump_detail = λ text. write (text ∷ []);
  read_reply = λ b. pair_of (read b);
  read_salt-dump_challenge = λ c. ap first_of (read_written (c.0 ∷ c.1 ∷ []));
  read_random2-dump_random2 = λ random2. ap first_of (read_written (random2 ∷ []));
  read_sealed-dump_sealed = λ p. ap pair_of (read_written (p.0 ∷ p.1 ∷ []));
  read_reply-dump_reply =
      λ random3 session_id. ap pair_of (read_written (random3 ∷ session_id ∷ []));
}

abbrev row : SensitiveData
row = record {
  id = "s1";
  non_critical_data_id = "n1";
  email = "u@x";
  password_hash = "d";
  password_salt = "salt";
}

abbrev human : Human
human = record { id = "m1"; sensitive_data_id = "s1"; is_master = false }

abbrev db : Db
db = record {
  non_critical = record { id = "n1"; is_active = true } ∷ [];
  sensitive = row ∷ [];
  administrators = [];
  managers = human ∷ [];
  users = [];
}

abbrev resolved : Resolved
resolved = record { entity = human; data_row = row; account_type = "manager"; is_master = false }

known : resolve_username db "u@x" ≡ ok (some resolved)
unfolding resolve_username by_sensitive_id accepted is_active
known = refl

abbrev draw : Draw
draw = record { random3 = "r3"; session_id = "sid"; iv = zeros 12 }

-- The client, as the limiter sees it.
abbrev caller : Request
caller = record { first_tag = some "Auth"; account_id = none; client_host = some "10.0.0.7" }

abbrev lowered : String → String
lowered _ = "auth"

abbrev routed : List String → memory.Store → Option (ℕ × Bytes) × memory.Store
routed (payload ∷ random ∷ iv ∷ email ∷ []) s = respond messages.dump_sealed messages.dump_detail (
    login_route crypto json_login memory session_json 60 5 draw lowered caller db email payload
      random iv s)
routed other s = (some (422, []), s)

abbrev posted : Option Bytes → memory.Store → Option (ℕ × Bytes) × memory.Store
posted none s = (some (422, []), s)
posted (some b) s = routed (read b) s

abbrev net : Network memory.Store
net call s =
    if str_eq call.method "GET"
    then respond messages.dump_challenge messages.dump_detail
        (challenge_route memory lowered 5 caller db "x" "n" "u@x" s)
    else posted call.data_bytes s

served :
    IsServed crypto json_login messages memory session_json 60 5 draw lowered caller db "x" "n"
      "http://h" "u@x" net
served = record {
  challenge = λ s. refl;
  login = λ payload random iv s.
      ap (λ l. routed l s) (read_written (payload ∷ random ∷ iv ∷ "u@x" ∷ []));
}

abbrev drawn : ClientDraw
drawn = record { random_hex = "hex"; random2 = "r2"; iv = zeros 12 }

hashed : "d" ≡ hash_password crypto "pw" "salt"
unfolding hash_password
hashed = refl

abbrev counted : memory.Store → memory.Store
counted s = (enforce_request_rate_limit memory lowered 5 caller s).1

first_admitted :
    enforce_request_rate_limit memory lowered 5 caller no_cells ≡ (ok tt, counted no_cells)
unfolding enforce_request_rate_limit
first_admitted = refl

second_admitted :
    enforce_request_rate_limit memory lowered 5 caller (counted no_cells)
    ≡ (ok tt, counted (counted no_cells))
unfolding enforce_request_rate_limit rate_limit_storage_key
second_admitted = refl

abbrev world : World memory.Store
world = record { file = none; server = no_cells }

cmd_login-connected_example :
    (s : memory.Store) × (key : String) × (cmd_login crypto json_login messages net "u@x" "pw"
        "http://h" drawn world
      ≡ (
        ok tt,
        record {
          file = some (record { session_id = "sid"; session_key = key; base_url = "http://h" });
          server = s;
        },
      ))
    × (get_session memory session_json 9 "sid" s ≡ (
      ok (
          some (record {
            session_id = "sid";
            session_key = key;
            account = account_context crypto json_login resolved;
            created_at = 5;
          })),
      s,
    ))
cmd_login-connected_example =
    cmd_login-connected crypto json_login messages memory session_json 60 5 draw lowered caller db
      "x" "n" "http://h" "u@x" net served 9 "pw" drawn resolved world (counted no_cells)
      (counted (counted no_cells)) first_admitted second_admitted (omega arith) (omega arith)
      (omega arith) known hashed refl refl refl
