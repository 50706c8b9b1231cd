-- ===== src/Tests/Runs.antt =====
-- The theorems on the runner of http/e2e.py at concrete inputs.
use iot_server.Prelude.{ℕ, ◌≡◌, refl, String, true, false, Option, none, some, List, [], ◌∷◌}
use iot_server.Http.{ok}
use iot_server.E2e.Crypto.{Bytes}
use iot_server.Client.{SessionFile, World, Network, ClientDraw, http_call}
use iot_server.Client.Requests.{Values, value_of, decode_response, send_sealed}
use iot_server.Client.Runner.{TestBlock, Texts, test_block, parse_block}
use iot_server.Client.Execute.{
  Evaluation, succeeded, all_hold, assertion_holds, status_fits, substitute, judge, capture_all,
}
use iot_server.Client.Run.{Tally, Running, cmd_run, send, send_in, execute_block, judged}
use iot_server.Client.Verdict.{execute_block-succeeded}
use iot_server.Tests.Characters.{codes, of_codes}
use iot_server.Tests.Libraries.{crypto, zeros}
use iot_server.Tests.Client.{json_login, messages}

abbrev values : Values
values = record {
  Value = String;
  loads = λ b. some (of_codes b);
  is_none = λ j. false;
  envelope = λ j. none;
  dump_envelope = λ p. [];
  empty_object = [];
}

abbrev evaluation : Evaluation values
evaluation = record {
  item = λ j index. none;
  field = λ j key. some key;
  show = λ j. j;
  loads_text = λ s. some s;
  dumps = codes;
  after_dollar = λ path. some path;
  segments = λ path. ("", path) ∷ [];
  sub = λ f text. text;
  lower = λ s. s;
  strip_quotes = λ s. s;
}

abbrev texts : Texts
texts = record {
  split = λ s. s ∷ [];
  strip = λ s. s;
  splitlines = λ s. s ∷ [];
  starts_with = λ s p. false;
  join = λ ss. "";
  join_lines = λ ss. "";
  request = λ line. some ("GET", line);
  int = λ s. none;
}

-- A server that always fails.
abbrev net : Network ℕ
net call s = (some (500, 79 ∷ 75 ∷ []), s)

abbrev session : SessionFile
session = record { session_id = "sid"; session_key = ""; base_url = "http://h" }

abbrev world : World ℕ
world = record { file = some session; server = 0 }

abbrev drawn : ClientDraw
drawn = record { random_hex = "h"; random2 = "r"; iv = zeros 12 }

abbrev block : TestBlock
block = record (test_block "status") { method = some "GET"; path = "/health" }

abbrev running : Running ℕ
running = record { variables = []; world = world }

sent :
    send crypto json_login messages values evaluation texts "http://d" net
      (zeros 12)
      block
      "GET"
      []
      world
    ≡ (ok (some ((500, 79 ∷ 75 ∷ []), some [])), world)
unfolding send send_in send_sealed http_call
sent = refl

abbrev checked : TestBlock
checked = record block { expect = some 500; assertions = ("ok", "ok") ∷ [] }

passes :
    execute_block crypto json_login messages values evaluation texts "http://d" net drawn checked
      running
    ≡ (ok succeeded, running)
unfolding execute_block send send_in send_sealed http_call judged judge all_hold assertion_holds
    substitute decode_response
passes = refl

execute_block-succeeded_example :
    (status : ℕ) × (raw : Bytes) × (key : Option Bytes) × (send crypto json_login messages values
        evaluation texts "http://d" net
        (zeros 12)
        checked
        "GET"
        []
        world
      ≡ (ok (some ((status, raw), key)), world))
    × (status_fits values evaluation (some 500) status ≡ true)
    × (all_hold values evaluation
          (value_of (decode_response crypto values key raw))
          []
          (("ok", "ok") ∷ [])
        ≡ true)
execute_block-succeeded_example =
    execute_block-succeeded crypto json_login messages values evaluation texts "http://d" net drawn
      checked "GET" running running refl refl refl passes

abbrev files : List (Option (List String))
files = some ("" ∷ "first" ∷ "/health" ∷ "second" ∷ "/ready" ∷ []) ∷ []

abbrev tally : Tally
tally = record { passed = 2; failures = 0; skips = 0; total = 2 }

runs :
    cmd_run crypto json_login messages values evaluation texts "http://d" net
      (λ n. drawn)
      files
      world
    ≡ (ok tally, running)
unfolding cmd_run parse_block execute_block send send_in send_sealed http_call judged judge
    decode_response capture_all
runs = refl
