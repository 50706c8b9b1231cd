-- ===== src/Client/Execute.antt =====
-- http/e2e.py: running the blocks of the test files. The details that are printed are left out.
use iot_server.Prelude.{
  ℕ, String, Bool, true, false, Option, none, some, List, [], ◌∷◌, str_eq, ◌==◌, ◌&&◌,
  if◌then◌else◌,
}
use iot_server.E2e.Crypto.{Bytes}
use iot_server.Client.Requests.{Values}
use iot_server.Client.Runner.{TestBlock}

abbrev pub Variables : Type 0
Variables = List (String × String)

-- What the runner uses of JSON values, of texts and of regular expressions: `segments` is `findall` of
-- `_SEG_RE`, `sub` is that of `_VAR_RE`, which gets the name and the token, and `after_dollar` is the
-- text behind a first `$`. An exception of an index, a key or a conversion is none.
pub record Evaluation (values : Values) : Type 0 where
  pub item : values.Value → String → Option values.Value
  pub field : values.Value → String → Option values.Value
  pub show : values.Value → String
  pub loads_text : String → Option values.Value
  pub dumps : values.Value → Bytes
  pub after_dollar : String → Option String
  pub segments : String → List (String × String)
  pub sub : (String → String → String) → String → String
  pub lower : String → String
  pub strip_quotes : String → String

-- The first component of what `_execute_block` returns.
pub data Outcome : Type 0 where
  succeeded : Outcome
  failed : Outcome
  skipped : Outcome

unfoldable pub get_variable : String → String → Variables → String
get_variable name default [] = default
get_variable name default ((n, x) ∷ rest) =
    let later = get_variable name default rest in if str_eq n name then x else later

module _ (values : Values) (evaluation : Evaluation values) where
  open values use {Value}
  open evaluation use {item, field, show, after_dollar, segments, sub, lower, strip_quotes}

  -- One segment: an index if there is one, else a key.
  unfoldable pub at_segment : String × String → Value → Option Value
  at_segment (index, key) j = if str_eq index "" then field j key else item j index

  unfoldable pub at_segments : List (String × String) → Option Value → Option Value
  unfolding at_segment
  at_segments path none = none
  at_segments [] (some j) = some j
  at_segments (s ∷ rest) (some j) = at_segments rest (at_segment s j)

  unfoldable pub at_path : Option String → Value → Option Value
  unfolding at_segments
  at_path none j = none
  at_path (some rest) j = at_segments (segments rest) (some j)

  -- `_jpath`
  unfoldable pub jpath : Value → String → Option Value
  unfolding at_path
  jpath j path = at_path (after_dollar path) j

  -- `_substitute`
  unfoldable pub substitute : String → Variables → String
  unfolding get_variable
  substitute text variables = sub (λ name token. get_variable name token variables) text

  unfoldable pub capture_value :
      String → Option Value → (Variables → Bool × Variables) → Variables → Bool × Variables
  capture_value name none later variables = (false, variables)
  capture_value name (some x) later variables = later ((name, show x) ∷ variables)

  -- Whether every capture was found, and the variables, which keep those before the first failure.
  unfoldable pub capture_all : List (String × String) → Option Value → Variables → Bool × Variables
  unfolding capture_value
  capture_all [] resp variables = (true, variables)
  capture_all ((name, path) ∷ rest) none variables = (false, variables)
  capture_all ((name, path) ∷ rest) (some j) variables =
      let later = capture_all rest (some j) in capture_value name (jpath j path) later variables

  unfoldable pub same_text : Option Value → String → Bool
  same_text none expected = false
  same_text (some actual) expected = str_eq (lower (show actual)) (lower expected)

  unfoldable pub assertion_holds : Option Value → Variables → String × String → Bool
  unfolding same_text jpath substitute
  assertion_holds none variables (path, expected) = false
  assertion_holds (some j) variables (path, expected) =
      same_text (jpath j path) (strip_quotes (substitute expected variables))

  unfoldable pub all_hold : Option Value → Variables → List (String × String) → Bool
  unfolding assertion_holds
  all_hold resp variables [] = true
  all_hold resp variables (a ∷ rest) =
      assertion_holds resp variables a && all_hold resp variables rest

  unfoldable pub status_fits : Option ℕ → ℕ → Bool
  status_fits none status = true
  status_fits (some expected) status = status == expected

  unfoldable pub after_captures :
      Option Value → List (String × String) → Bool × Variables → Outcome × Variables
  unfolding all_hold
  after_captures resp assertions (found, variables) =
      (if found && all_hold resp variables assertions then succeeded else failed, variables)

  -- What becomes of a response: the expected status, the captures, the assertions.
  unfoldable pub judge : TestBlock → ℕ → Option Value → Variables → Outcome × Variables
  unfolding status_fits capture_all after_captures
  judge block status resp variables =
      if status_fits block.expect status
      then after_captures resp block.assertions (capture_all block.captures resp variables)
      else (failed, variables)
