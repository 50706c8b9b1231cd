-- ===== src/Personal.antt =====
-- app/domain/personal_data/schemas.py and app/domain/device/schemas.py: the validators of personal data
-- and of device addresses, on texts as lists of code points.
pub mod Curp
pub mod Birth
pub mod Email
pub mod Mac
pub mod Accounts
pub mod Stored
pub mod Update
use iot_server.Prelude.{
  ℕ, ◌+◌, ◌-◌, ◌*◌, ◌≡◌, Bool, true, false, Option, none, some, List, [], ◌∷◌, ◌++◌, ◌&&◌, ◌||◌,
  not, ltb, leb, ◌==◌, if◌then◌else◌,
}
use iot_server.Prelude.Lists.{length}
use iot_server.Http.{Result, ok, err, python}

abbrev pub Text : Type 0
Text = List ℕ

-- What the validators use of Python's `str` and `re`: `strip`, `upper` and `lower`, the characters of
-- `\d` and of `\s`, and the value that `int` gives one of `\d`.
pub record Unicode : Type 0 where
  pub strip : Text → Text
  pub upper : Text → Text
  pub lower : Text → Text
  pub is_decimal : ℕ → Bool
  pub is_space : ℕ → Bool
  pub decimal_value : ℕ → ℕ
  pub upper-strip-idem : (s : Text) → upper (strip (upper (strip s))) ≡ upper (strip s)
  pub lower-strip-idem : (s : Text) → lower (strip (lower (strip s))) ≡ lower (strip s)

abbrev pub between : ℕ → ℕ → ℕ → Bool
between lo hi c = leb lo c && leb c hi

abbrev pub is_upper : ℕ → Bool
is_upper c = between b'A' b'Z' c

abbrev pub is_lower : ℕ → Bool
is_lower c = between b'a' b'z' c

abbrev pub is_digit : ℕ → Bool
is_digit c = between b'0' b'9' c

-- `[…]` with the characters of a text.
unfoldable pub one_of : Text → ℕ → Bool
one_of [] c = false
one_of (x ∷ xs) c = c == x || one_of xs c

-- `fullmatch` of a sequence of character classes.
unfoldable pub full_match : List (ℕ → Bool) → Text → Bool
full_match [] [] = true
full_match [] (c ∷ cs) = false
full_match (p ∷ ps) [] = false
full_match (p ∷ ps) (c ∷ cs) = p c && full_match ps cs

unfoldable pub all_are : (ℕ → Bool) → Text → Bool
all_are p [] = true
all_are p (c ∷ cs) = p c && all_are p cs

unfoldable pub some_is : (ℕ → Bool) → Text → Bool
some_is p [] = false
some_is p (c ∷ cs) = p c || some_is p cs

abbrev pub value_error : {A : Type 0} → Result A
value_error = err (python "ValueError")

-- The validators of the update schemas let `None` pass.
unfoldable pub optional : {A : Type 0} → (A → Result A) → Option A → Result (Option A)
optional check none = ok none
optional check (some a) = elim (check a) [ ok b ↦ ok (some b) | err e ↦ err e ]

module _ (u : Unicode) where
  -- PASSWORD_COMPLEXITY_RE
  unfoldable pub is_complex : Text → Bool
  unfolding all_are some_is
  is_complex s =
      (some_is is_lower s && some_is is_upper s)
      && (some_is u.is_decimal s && some_is (λ c. not (is_lower c || (is_upper c || is_digit c))) s)
      && (all_are (λ c. not (u.is_space c)) s && between 8 128 (length s))

  unfoldable pub validate_password : Text → Result Text
  unfolding is_complex
  validate_password value =
      let password = u.strip value in if is_complex password then ok password else value_error

  unfoldable pub int_of : ℕ → Text → ℕ
  int_of n [] = n
  int_of n (c ∷ cs) = int_of (n * 10 + u.decimal_value c) cs

  unfoldable pub validate_postal_code : Text → Result Text
  unfolding int_of full_match
  validate_postal_code value =
      let postal_code = u.strip value in
      let d = u.is_decimal in
      if full_match (d ∷ d ∷ d ∷ d ∷ d ∷ []) postal_code
      then (if between 1000 99999 (int_of 0 postal_code) then ok postal_code else value_error)
      else value_error
