-- ===== src/Personal/Mac.antt =====
-- The addresses of a device (app/domain/device/schemas.py).
use iot_server.Prelude.{
  ℕ, ◌≡◌, refl, ap, Bool, true, false, List, [], ◌∷◌, ◌++◌, ◌&&◌, ◌||◌, ◌==◌, if◌then◌else◌,
  and_true,
}
use iot_server.Http.{Result, ok}
use iot_server.Personal.{Text, Unicode, is_digit, between, full_match, value_error}

abbrev pub is_hex : ℕ → Bool
is_hex c = is_digit c || (between b'A' b'F' c || between b'a' b'f' c)

abbrev pub is_separator : ℕ → Bool
is_separator c = c == b':' || c == b'-'

-- `([0-9A-Fa-f]{2}[:\-]){5}([0-9A-Fa-f]{2})`
abbrev pub mac_classes : List (ℕ → Bool)
mac_classes =
    is_hex ∷ is_hex ∷ is_separator ∷ is_hex ∷ is_hex ∷ is_separator ∷ is_hex ∷ is_hex ∷ is_separator
    ∷ is_hex ∷ is_hex ∷ is_separator ∷ is_hex ∷ is_hex ∷ is_separator ∷ is_hex ∷ is_hex ∷ []

-- `re.match` of a pattern that ends in `$`, which also stands before a last newline.
unfoldable pub match_to_end : List (ℕ → Bool) → Text → Bool
match_to_end [] [] = true
match_to_end [] (c ∷ []) = c == 10
match_to_end [] (c ∷ d ∷ cs) = false
match_to_end (p ∷ ps) [] = false
match_to_end (p ∷ ps) (c ∷ cs) = p c && match_to_end ps cs

-- `DeviceCreate.validate_mac` of a value that is not None.
unfoldable pub validate_mac : Unicode → Text → Result Text
unfolding match_to_end
validate_mac u value = if match_to_end mac_classes value then ok (u.upper value) else value_error

-- `DeviceCreate.validate_ip`, with the library's `ip_address`.
unfoldable pub validate_ip : (Text → Bool) → Text → Result Text
validate_ip ip_address value = if ip_address value then ok value else value_error

match_newline :
    (ps : List (ℕ → Bool)) (s : Text)
    → full_match ps s ≡ true
    → (match_to_end ps s ≡ true)
      × (match_to_end ps (s ++ 10 ∷ []) ≡ true)
      × (full_match ps (s ++ 10 ∷ []) ≡ false)
unfolding match_to_end full_match
match_newline [] [] h = (refl, refl, refl)
match_newline [] (c ∷ cs) h = cc
match_newline (p ∷ ps) [] h = cc
match_newline (p ∷ ps) (c ∷ cs) h =
    let (first, rest) = and_true (p c) (full_match ps cs) h in
    let (a, b, d) = match_newline ps cs rest in
    (rw (first, a) refl, rw (first, b) refl, rw (first, d) refl)

-- Every text that is a MAC address is accepted, and so is the same text with a newline behind it, which
-- is no MAC address.
pub validate_mac_newline :
    (u : Unicode) (s : Text)
    → full_match mac_classes s ≡ true
    → (validate_mac u s ≡ ok (u.upper s))
      × (validate_mac u (s ++ 10 ∷ []) ≡ ok (u.upper (s ++ 10 ∷ [])))
      × (full_match mac_classes (s ++ 10 ∷ []) ≡ false)
unfolding validate_mac
validate_mac_newline u s h =
    let (a, b, d) = match_newline mac_classes s h in
    (
      ap (λ t. if t then ok (u.upper s) else value_error) a,
      ap (λ t. if t then ok (u.upper (s ++ 10 ∷ [])) else value_error) b,
      d,
    )
