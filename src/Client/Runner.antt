-- ===== src/Client/Runner.antt =====
-- http/e2e.py: the test runner. Python's texts and regular expressions are parameters.
use iot_server.Prelude.{
  ℕ, String, Bool, true, false, Option, none, some, List, [], ◌∷◌, ◌++◌, str_eq, if◌then◌else◌,
}
use iot_server.Http.{Result, ok, err, python}

-- `Login` holds an e-mail address, a password and a url, which may be empty.
pub record TestBlock : Type 0 where
  pub name : String
  pub method : Option String
  pub path : String
  pub body : String
  pub expect : Option ℕ
  pub captures : List (String × String)
  pub assertions : List (String × String)
  pub is_public : Bool
  pub skip : Option String
  pub login : Option (String × String × String)

abbrev pub test_block : String → TestBlock
test_block name = record {
  name = name;
  method = none;
  path = "";
  body = "";
  expect = none;
  captures = [];
  assertions = [];
  is_public = false;
  skip = none;
  login = none;
}

-- Methods of texts: `join` is `" ".join`, `lines` joins by line ends; `request` is the split of a line
-- that `_METHOD_RE` matches; `int` is none on a ValueError.
pub record Texts : Type 0 where
  pub split : String → List String
  pub strip : String → String
  pub splitlines : String → List String
  pub starts_with : String → String → Bool
  pub join : List String → String
  pub join_lines : List String → String
  pub request : String → Option (String × String)
  pub int : String → Option ℕ

unfoldable pub and_then : {A B : Type 0} → (A → Result B) → Result A → Result B
and_then f (ok a) = f a
and_then f (err e) = err e

module _ (texts : Texts) where
  unfoldable pub set_expect : TestBlock → Option ℕ → Result TestBlock
  set_expect block none = err (python "ValueError")
  set_expect block (some n) = ok (record block { expect = some n })

  unfoldable pub or_default : String → String → String
  or_default text default = if str_eq text "" then default else text

  -- `@skip`, `@public`, and words that are no directive.
  unfoldable pub apply_plain : TestBlock → String → List String → Result TestBlock
  unfolding or_default
  apply_plain block directive rest =
      if str_eq directive "@public"
      then ok (record block { is_public = true })
      else (if str_eq directive "@skip"
          then ok (record block { skip = some (or_default (texts.join rest) "marked skip") })
          else ok block)

  unfoldable pub url_word : List String → String
  url_word [] = ""
  url_word (url ∷ rest) = url

  -- The words after the directive.
  unfoldable pub apply_words : TestBlock → String → List String → Result TestBlock
  unfolding apply_plain set_expect url_word
  apply_words block directive [] = apply_plain block directive []
  apply_words block directive (a ∷ []) =
      if str_eq directive "@expect"
      then set_expect block (texts.int a)
      else apply_plain block directive (a ∷ [])
  apply_words block directive (a ∷ b ∷ rest) =
      if str_eq directive "@login"
      then ok (record block { login = some (a, b, url_word rest) })
      else (if str_eq directive "@expect"
          then set_expect block (texts.int a)
          else (if str_eq directive "@capture"
              then ok (record block { captures = block.captures ++ ((a, b) ∷ []) })
              else (if str_eq directive "@assert"
                  then ok (record block {
                    assertions = block.assertions ++ ((a, texts.join (b ∷ rest)) ∷ []);
                  })
                  else apply_plain block directive (a ∷ b ∷ rest))))

  unfoldable pub apply_split : TestBlock → List String → Result TestBlock
  unfolding apply_words
  apply_split block [] = ok block
  apply_split block (mark ∷ []) = ok block
  apply_split block (mark ∷ directive ∷ rest) = apply_words block directive rest

  -- `_apply_directive`
  unfoldable pub apply_directive : TestBlock → String → Result TestBlock
  unfolding apply_split
  apply_directive block s = apply_split block (texts.split s)

  unfoldable pub has_method : Option String → Bool
  has_method none = false
  has_method (some method) = true

  -- A line that is neither blank nor a directive is the request, if none came before, or a header.
  unfoldable pub request_line : TestBlock → Option String → Option (String × String) → TestBlock
  request_line block (some method) line = block
  request_line block none none = block
  request_line block none (some (method, path)) = record block {
    method = some method;
    path = texts.strip path;
  }

  unfoldable pub parse_line : TestBlock → String → Result TestBlock
  unfolding apply_directive request_line
  parse_line block s =
      if texts.starts_with s "#"
      then apply_directive block s
      else ok (request_line block block.method (texts.request s))

  unfoldable pub with_body : TestBlock → List String → Result TestBlock
  with_body block rest = ok (record block { body = texts.strip (texts.join_lines rest) })

  -- The loop over the lines; the lines after it are the body.
  unfoldable pub parse_lines : List String → TestBlock → Result TestBlock
  unfolding parse_line with_body has_method and_then
  parse_lines [] block = with_body block []
  parse_lines (line ∷ rest) block =
      let s = texts.strip line in
      let later = parse_lines rest in
      if str_eq s ""
      then (if has_method block.method then with_body block rest else later block)
      else and_then later (parse_line block s)

  -- `_parse_block`
  unfoldable pub parse_block : String → String → Result TestBlock
  unfolding parse_lines
  parse_block name body = parse_lines (texts.splitlines body) (test_block name)
