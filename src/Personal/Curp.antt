-- ===== src/Personal/Curp.antt =====
-- The validators of CURP and RFC, and the check digit of a CURP.
pub mod Digit
pub mod Accepted
use iot_server.Prelude.{
  ℕ, suc, ◌+◌, ◌-◌, ◌*◌, ◌%◌, ◌≤◌, ◌<◌, ◌≡◌, refl, sym, ◌∙◌, ap, arith, Bool, true, false, Option,
  none, some, List, [], ◌∷◌, ◌++◌, ◌&&◌, ◌||◌, not, ltb, leb, ◌==◌, if◌then◌else◌, Bool-cases,
  Option-cases, and_true, inl, inr, String,
}
use iot_server.Prelude.Lists.{length, take, drop}
use iot_server.Http.{Result, ok, err, python}
use iot_server.Personal.{
  Text, Unicode, is_upper, is_digit, between, one_of, full_match, value_error,
}
use Prim.Native.Char.{code}

abbrev codes : String → Text
codes String.[] = []
codes (String.◌∷◌ c s) = code c ∷ codes s

abbrev pub curp_alphabet : Text
curp_alphabet = codes "0123456789ABCDEFGHIJKLMNÑOPQRSTUVWXYZ"

-- `CURP_ALPHABET.index(char)`, counted from `i`; `none` is the ValueError.
unfoldable pub index_from : ℕ → Text → ℕ → Option ℕ
index_from i [] c = none
index_from i (x ∷ xs) c = if c == x then some i else index_from (suc i) xs c

abbrev plus : ℕ → Option ℕ → Option ℕ → Option ℕ
plus weight none rest = none
plus weight (some value) none = none
plus weight (some value) (some total) = some (value * weight + total)

-- The loop over the characters from `index` on.
unfoldable pub weighted : ℕ → Text → Option ℕ
unfolding index_from
weighted index [] = some 0
weighted index (c ∷ cs) = plus (18 - index) (index_from 0 curp_alphabet c) (weighted (suc index) cs)

unfoldable pub digit_of : ℕ → ℕ
digit_of total = let digit = 10 - total % 10 in if digit == 10 then b'0' else b'0' + digit

unfoldable pub digit_if : Option ℕ → Option ℕ
unfolding digit_of
digit_if none = none
digit_if (some total) = some (digit_of total)

unfoldable pub calculate_curp_check_digit : Text → Option ℕ
unfolding weighted digit_if
calculate_curp_check_digit curp17 = digit_if (weighted 0 curp17)

-- The two letters of a state, `(AS|BC|…|NE)`.
abbrev pub states : List String
states =
    "AS" ∷ "BC" ∷ "BS" ∷ "CC" ∷ "CL" ∷ "CM" ∷ "CS" ∷ "CH" ∷ "DF" ∷ "DG" ∷ "GT" ∷ "GR" ∷ "HG" ∷ "JC"
    ∷ "MC" ∷ "MN" ∷ "MS" ∷ "NT" ∷ "NL" ∷ "OC" ∷ "PL" ∷ "QT" ∷ "QR" ∷ "SP" ∷ "SL" ∷ "SR" ∷ "TC"
    ∷ "TS" ∷ "TL" ∷ "VZ" ∷ "YN" ∷ "ZS" ∷ "NE" ∷ []

unfoldable pub is_pair : ℕ → ℕ → Text → Bool
is_pair a b (x ∷ y ∷ []) = a == x && b == y
is_pair a b _ = false

unfoldable pub is_state : List String → ℕ → ℕ → Bool
unfolding is_pair
is_state [] a b = false
is_state (s ∷ ss) a b = is_pair a b (codes s) || is_state ss a b

abbrev pub is_vowel_or_x : ℕ → Bool
is_vowel_or_x = one_of (codes "AEIOUX")

-- `[B-DF-HJ-NP-TV-Z]`
abbrev pub is_consonant : ℕ → Bool
is_consonant c =
    between b'B' b'D' c
    || (between b'F' b'H' c
        || (between b'J' b'N' c || (between b'P' b'T' c || between b'V' b'Z' c)))

abbrev pub is_alnum : ℕ → Bool
is_alnum c = is_upper c || is_digit c

-- `(0[1-9]|1[0-2])(0[1-9]|[12]\d|3[01])`
unfoldable pub is_month_day : (ℕ → Bool) → ℕ → ℕ → ℕ → ℕ → Bool
is_month_day decimal a b c d =
    (a == b'0' && between b'1' b'9' b || a == b'1' && between b'0' b'2' b)
    && (c == b'0' && between b'1' b'9' d
        || (between b'1' b'2' c && decimal d || c == b'3' && between b'0' b'1' d))

module _ (u : Unicode) where
  -- The first 13 characters of CURP_RE.
  unfoldable pub is_curp_start : ℕ → ℕ → ℕ → ℕ → ℕ → ℕ → ℕ → ℕ → ℕ → ℕ → ℕ → ℕ → ℕ → Bool
  unfolding is_state is_month_day one_of
  is_curp_start a b c d y z m n e f g s t =
      (is_upper a && is_vowel_or_x b)
      && ((is_upper c && is_upper d)
          && ((u.is_decimal y && u.is_decimal z)
              && ((is_month_day u.is_decimal m n e f && (g == b'H' || g == b'M'))
                  && is_state states s t)))

  -- CURP_RE.fullmatch
  unfoldable pub is_curp : Text → Bool
  unfolding is_curp_start full_match
  is_curp (a ∷ b ∷ c ∷ d ∷ y ∷ z ∷ m ∷ n ∷ e ∷ f ∷ g ∷ s ∷ t ∷ rest) =
      is_curp_start a b c d y z m n e f g s t
      && full_match (is_consonant ∷ is_consonant ∷ is_consonant ∷ is_alnum ∷ u.is_decimal ∷ []) rest
  is_curp _ = false

  -- `curp[-1] != expected_digit`
  unfoldable pub check_last : Text → Option ℕ → Text → Result Text
  check_last curp none last = value_error
  check_last curp (some digit) [] = value_error
  check_last curp (some digit) (c ∷ _) = if c == digit then ok curp else value_error

  unfoldable pub check_curp : Text → Result Text
  unfolding is_curp check_last calculate_curp_check_digit
  check_curp curp =
      if is_curp curp
      then check_last curp (calculate_curp_check_digit (take 17 curp)) (drop 17 curp)
      else value_error

  unfoldable pub validate_curp : Text → Result Text
  unfolding check_curp
  validate_curp value = check_curp (u.upper (u.strip value))

  -- RFC_RE.fullmatch, after its three or four letters.
  unfoldable pub is_rfc_tail : Text → Bool
  unfolding is_month_day
  is_rfc_tail (y ∷ z ∷ m ∷ n ∷ e ∷ f ∷ a ∷ b ∷ c ∷ []) =
      (u.is_decimal y && u.is_decimal z)
      && (is_month_day u.is_decimal m n e f && (is_alnum a && (is_alnum b && is_alnum c)))
  is_rfc_tail _ = false

  abbrev pub is_rfc_letter : ℕ → Bool
  is_rfc_letter c = is_upper c || (c == b'&' || c == 209)

  unfoldable pub is_rfc : Text → Bool
  unfolding is_rfc_tail
  is_rfc (a ∷ b ∷ c ∷ d ∷ rest) =
      (is_rfc_letter a && (is_rfc_letter b && is_rfc_letter c))
      && (is_rfc_tail (d ∷ rest) || is_rfc_letter d && is_rfc_tail rest)
  is_rfc _ = false

  unfoldable pub validate_rfc : Text → Result Text
  unfolding is_rfc
  validate_rfc value =
      let rfc = u.upper (u.strip value) in if is_rfc rfc then ok rfc else value_error
