-- ===== src/Client/Run.antt =====
-- http/e2e.py: `_send`, `_execute_block` and `cmd_run`.
use Prim.Native.String.{◌++◌}
use iot_server.Prelude.{
  ℕ, suc, String, Option, none, some, List, [], ◌∷◌, str_eq, not, ltb, ◌&&◌, if◌then◌else◌,
}
use iot_server.Http.{Exec, Result, ok, err, http, too_many, python, continue, ◌>>=◌, pure, or_raise}
use iot_server.E2e.Crypto.{Bytes, CryptoLibrary}
use iot_server.E2e.Login.{LoginJson}
use iot_server.Client.{
  SessionFile, World, Network, Messages, ClientDraw, cmd_login, http_call, url_of, system_exit,
}
use iot_server.Client.Requests.{Values, value_of, decode_response, has_body, send_sealed}
use iot_server.Client.Runner.{TestBlock, Texts, parse_block}
use iot_server.Client.Execute.{
  Variables, Evaluation, Outcome, succeeded, failed, skipped, substitute, judge,
}

-- Blocks of a file as `_BLOCK_RE.split` gives them: the names and bodies alternate behind a first text.
unfoldable pub named_blocks : (String → String) → List String → List (String × String)
named_blocks strip [] = []
named_blocks strip (name ∷ []) = []
named_blocks strip (name ∷ body ∷ rest) =
    let later = named_blocks strip rest in
    if str_eq (strip name) "" then later else (strip name, body) ∷ later

-- `_parse_blocks`
unfoldable pub parse_blocks : (String → String) → List String → List (String × String)
unfolding named_blocks
parse_blocks strip [] = []
parse_blocks strip (before ∷ parts) = named_blocks strip parts

pub record Tally : Type 0 where
  pub passed : ℕ
  pub failures : ℕ
  pub skips : ℕ
  pub total : ℕ

-- The numbers after one more block.
unfoldable pub count : Outcome → Tally → Tally
count succeeded t = record t { passed = suc t.passed; total = suc t.total }
count failed t = record t { failures = suc t.failures; total = suc t.total }
count skipped t = record t { skips = suc t.skips; total = suc t.total }

pub record Running (S : Type 0) : Type 0 where
  pub variables : Variables
  pub world : World S

-- A login in a block: only a SystemExit is caught.
unfoldable pub login_outcome : {S : Type 0} → Result (Unit {0}) × S → Result Outcome × S
login_outcome (ok u, s) = (ok succeeded, s)
login_outcome (err (python name), s) =
    (if str_eq name "SystemExit" then ok failed else err (python name), s)
login_outcome (err (http status detail), s) = (err (http status detail), s)
login_outcome (err (too_many seconds), s) = (err (too_many seconds), s)

unfoldable pub in_world : {S A : Type 0} → Exec (World S) A → Exec (Running S) A
in_world run s = let (r, w) = run s.world in (r, record s { world = w })

module _ (lib : CryptoLibrary) (lj : LoginJson) (messages : Messages lj) (values : Values)
    (evaluation : Evaluation values) (texts : Texts) (default_url : String) {S : Type 0}
    (net : Network S) where
  open values use {Value}
  open evaluation use {loads_text, dumps}

  -- The body of a public request: the JSON of the block, written again.
  unfoldable pub public_body : String → Option Value → Exec (World S) (Option Bytes)
  public_body body none w = (err (python "JSONDecodeError"), w)
  public_body body (some j) w = (ok (some (dumps j)), w)

  unfoldable pub plain_body : String → String → Exec (World S) (Option Bytes)
  unfolding public_body
  plain_body method body w =
      if not (str_eq body "") && has_body lib values net method
      then public_body body (loads_text body) w
      else (ok none, w)

  unfoldable pub send_public :
      String → String → String → Exec (World S) (Option ((ℕ × Bytes) × Option Bytes))
  unfolding plain_body http_call
  send_public method path body = do
    req_body ← plain_body method body
    reply ← (λ w. http_call net method (url_of default_url w.file ++ path) req_body [] w)
    pure (some (reply, none))

  unfoldable pub send_in :
      Bytes
      → String
      → String
      → String
      → Option SessionFile
      → Exec (World S) (Option ((ℕ × Bytes) × Option Bytes))
  unfolding send_sealed
  send_in iv method path body none = pure none
  send_in iv method path body (some sess) = do
    key ← or_raise (lib.from_hex sess.session_key) (python "ValueError")
    reply ← send_sealed lib values net iv sess key method path body
    pure (some (reply, some key))

  -- `_send`
  unfoldable pub send :
      Bytes → TestBlock → String → Variables → Exec (World S) (Option ((ℕ × Bytes) × Option Bytes))
  unfolding send_public send_in substitute
  send iv block method variables w =
      let path = substitute values evaluation block.path variables in
      let body = substitute values evaluation block.body variables in
      if block.is_public
      then send_public method path body w
      else send_in iv method path body w.file w

  unfoldable pub settled : Outcome × Variables → Exec (Running S) Outcome
  settled (outcome, variables) s = (ok outcome, record s { variables = variables })

  unfoldable pub judged : TestBlock → Option ((ℕ × Bytes) × Option Bytes) → Exec (Running S) Outcome
  unfolding settled judge value_of decode_response
  judged block none s = (ok failed, s)
  judged block (some ((status, raw), key)) s =
      settled
        (judge values evaluation block status (value_of (decode_response lib values key raw))
          s.variables)
        s

  unfoldable pub execute_request : ClientDraw → TestBlock → Option String → Exec (Running S) Outcome
  unfolding send in_world judged
  execute_request drawn block none s = (ok skipped, s)
  execute_request drawn block (some method) s =
      continue (judged block) (in_world (send drawn.iv block method s.variables) s)

  unfoldable pub execute_unless_skipped :
      ClientDraw → TestBlock → Option String → Exec (Running S) Outcome
  unfolding execute_request
  execute_unless_skipped drawn block none = execute_request drawn block block.method
  execute_unless_skipped drawn block (some reason) =
      if str_eq reason "" then execute_request drawn block block.method else pure skipped

  unfoldable pub execute_login :
      ClientDraw → TestBlock → Option (String × String × String) → Exec (Running S) Outcome
  unfolding execute_unless_skipped login_outcome in_world url_of cmd_login
  execute_login drawn block none s = execute_unless_skipped drawn block block.skip s
  execute_login drawn block (some (email, password, url)) s =
      let base_url = if str_eq url "" then url_of default_url s.world.file else url in
      login_outcome (in_world (cmd_login lib lj messages net email password base_url drawn) s)

  -- `_execute_block`
  unfoldable pub execute_block : ClientDraw → TestBlock → Exec (Running S) Outcome
  unfolding execute_login
  execute_block drawn block = execute_login drawn block block.login

  unfoldable pub run_parsed : ClientDraw → Result TestBlock → Exec (Running S) Outcome
  unfolding execute_block
  run_parsed drawn (err e) s = (err e, s)
  run_parsed drawn (ok block) s = execute_block drawn block s

  -- The loop over the blocks of a file; each block may draw anew, by its number.
  unfoldable pub run_blocks :
      (ℕ → ClientDraw) → List (String × String) → Tally → Exec (Running S) Tally
  unfolding run_parsed count parse_block
  run_blocks draw [] t s = (ok t, s)
  run_blocks draw ((name, body) ∷ rest) t s =
      continue (λ outcome. run_blocks draw rest (count outcome t))
        (run_parsed (draw t.total) (parse_block texts name body) s)

  unfoldable pub run_file : (ℕ → ClientDraw) → Option (List String) → Tally → Exec (Running S) Tally
  unfolding run_blocks parse_blocks
  run_file draw none t s = (err system_exit, s)
  run_file draw (some parts) t s = run_blocks draw (parse_blocks texts.strip parts) t s

  -- The loop over the files; a file is the parts of its text, or none if it is not found.
  unfoldable pub run_files :
      (ℕ → ClientDraw) → List (Option (List String)) → Tally → Exec (Running S) Tally
  unfolding run_file
  run_files draw [] t s = (ok t, s)
  run_files draw (f ∷ rest) t s = continue (run_files draw rest) (run_file draw f t s)

  -- A failed block makes the run exit with status 1.
  unfoldable pub report : Tally → Exec (Running S) Tally
  report t s = (if ltb 0 t.failures then err system_exit else ok t, s)

  -- `cmd_run`; the result is what the summary prints.
  unfoldable pub cmd_run :
      (ℕ → ClientDraw) → List (Option (List String)) → World S → Result Tally × Running S
  unfolding run_files report
  cmd_run draw files w = continue report (
      run_files draw files (record { passed = 0; failures = 0; skips = 0; total = 0 })
        (record { variables = []; world = w }))
