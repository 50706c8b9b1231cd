-- ===== src/Personal/Curp/Accepted.antt =====
-- What an accepted CURP looks like.
use iot_server.Prelude.{
  ℕ, zero, suc, ◌≡◌, refl, sym, ◌∙◌, ap, arith, Bool, true, Option, none, some, [], ◌∷◌, ◌==◌,
  Bool-cases, and_true, inl, inr,
}
use iot_server.Prelude.Lists.{length, take, drop}
use iot_server.Http.{ok, err, python}
use iot_server.Personal.{Text, Unicode, full_match}
use iot_server.Personal.Curp.{
  is_curp, check_last, check_curp, validate_curp, calculate_curp_check_digit, is_consonant,
  is_alnum, is_curp_start,
}

module _ (u : Unicode) where
  five-length :
      (p q r s t : ℕ → Bool) (xs : Text)
      → full_match (p ∷ q ∷ r ∷ s ∷ t ∷ []) xs ≡ true
      → length xs ≡ 5
  unfolding full_match
  five-length p q r s t [] h = cc
  five-length p q r s t (a ∷ []) h = ground arith
  five-length p q r s t (a ∷ b ∷ []) h = ground arith
  five-length p q r s t (a ∷ b ∷ c ∷ []) h = ground arith
  five-length p q r s t (a ∷ b ∷ c ∷ d ∷ []) h = ground arith
  five-length p q r s t (a ∷ b ∷ c ∷ d ∷ e ∷ []) h = refl
  five-length p q r s t (a ∷ b ∷ c ∷ d ∷ e ∷ f ∷ xs) h = ground arith

  is_curp-length : (s : Text) → is_curp u s ≡ true → length s ≡ 18
  unfolding is_curp
  is_curp-length (a ∷ b ∷ c ∷ d ∷ y ∷ z ∷ m ∷ n ∷ e ∷ f ∷ g ∷ s ∷ t ∷ rest) h =
      let tail : full_match
            (is_consonant ∷ is_consonant ∷ is_consonant ∷ is_alnum ∷ u.is_decimal ∷ []) rest
          ≡ true =
        (and_true (is_curp_start u a b c d y z m n e f g s t) _ h).1 in
      omega
        (arith, five-length is_consonant is_consonant is_consonant is_alnum u.is_decimal rest tail)
  is_curp-length _ h = cc

  last_one : (n : ℕ) (s : Text) {c : ℕ} {cs : Text} → length s ≡ suc n → drop n s ≡ c ∷ cs → cs ≡ []
  last_one zero [] l e = cc
  last_one zero (x ∷ []) l e = cc
  last_one zero (x ∷ y ∷ s) l e = absurd (omega arith)
  last_one (suc n) [] l e = cc
  last_one (suc n) (x ∷ s) l e = last_one n s (omega arith) e

  check_last-ok :
      (s : Text) (digit : Option ℕ) (last : Text) {r : Text}
      → check_last u s digit last ≡ ok r
      → (r ≡ s) × (d : ℕ) × (rest : Text) × (digit ≡ some d) × (last ≡ d ∷ rest)
  unfolding check_last
  check_last-ok s none last h = cc
  check_last-ok s (some d) [] h = cc
  check_last-ok s (some d) (c ∷ cs) {r} h = elim (Bool-cases (c == d)) [
    | inl yes_ ↦
        let e : s ≡ r = cc (rw yes_ at h) in
        let cd : c ≡ d = ground arith in (sym e, d, cs, refl, ap (λ x. x ∷ cs) cd)
    | inr no_ ↦ let bad : err (python "ValueError") ≡ ok r = rw no_ at h in cc
  ]

  check_curp-ok :
      (s : Text) {r : Text}
      → check_curp u s ≡ ok r
      → (is_curp u s ≡ true)
        × (check_last u s (calculate_curp_check_digit (take 17 s)) (drop 17 s) ≡ ok r)
  unfolding check_curp
  check_curp-ok s {r} h = elim (Bool-cases (is_curp u s)) [
    | inl yes_ ↦ (yes_, rw yes_ at h)
    | inr no_ ↦ let bad : err (python "ValueError") ≡ ok r = rw no_ at h in cc
  ]

  -- A CURP that was accepted is accepted again as it is stored, has 18 characters, and ends in the check
  -- digit of the first 17.
  pub validated_curp :
      (raw curp : Text)
      → validate_curp u raw ≡ ok curp
      → (validate_curp u curp ≡ ok curp)
        × (length curp ≡ 18)
        × (d : ℕ) × (calculate_curp_check_digit (take 17 curp) ≡ some d)
        × (drop 17 curp ≡ d ∷ [])
  unfolding validate_curp
  validated_curp raw curp h =
      let s = u.upper (u.strip raw) in
      let (matches, last) = check_curp-ok s h in
      let (same, d, rest, digit, tail) = check_last-ok s _ (drop 17 s) last in
      let long = is_curp-length s matches in
      let again : check_curp u (u.upper (u.strip s)) ≡ ok curp =
        ap (check_curp u) (u.upper-strip-idem raw) ∙ h in
      rw same
        (again ∙ ap ok same, long, d, digit, tail ∙ ap (λ cs. d ∷ cs) (last_one 17 s long tail))
