-- ===== src/Personal/Email.antt =====
-- `normalize_email` of app/domain/personal_data/schemas.py.
use iot_server.Prelude.{
  ℕ, ◌≡◌, refl, ap, arith, Bool, true, false, [], ◌∷◌, ◌++◌, ◌||◌, not, ◌==◌, if◌then◌else◌,
  Bool-cases, inl, inr,
}
use iot_server.Http.{Result, ok, err, python}
use iot_server.Personal.{Text, Unicode, some_is, value_error}

unfoldable pub starts_with : ℕ → Text → Bool
starts_with a [] = false
starts_with a (c ∷ cs) = c == a

unfoldable pub ends_with : ℕ → Text → Bool
ends_with a [] = false
ends_with a (c ∷ []) = c == a
ends_with a (c ∷ d ∷ cs) = ends_with a (d ∷ cs)

abbrev at_sign : ℕ
at_sign = 64

unfoldable pub is_invalid : Text → Bool
unfolding some_is starts_with ends_with
is_invalid email =
    not (some_is (λ c. c == 64) email) || (starts_with 64 email || ends_with 64 email)

module _ (u : Unicode) where
  unfoldable pub normalize_email : Text → Result Text
  unfolding is_invalid
  normalize_email value =
      let email = u.lower (u.strip value) in if is_invalid email then value_error else ok email

  -- A text with an @, in two parts around one.
  split_at :
      (s : Text)
      → some_is (λ c. c == 64) s ≡ true
      → ends_with 64 s ≡ false
      → (a : Text) × (c : ℕ) × (b : Text) × (s ≡ a ++ (64 ∷ c ∷ b))
  unfolding some_is ends_with
  split_at [] h e = cc
  split_at (x ∷ []) h e = absurd (ground arith)
  split_at (x ∷ y ∷ s) h e = elim (Bool-cases (x == 64)) [
    | inl yes_ ↦ let is_at : x ≡ 64 = ground arith in ([], y, s, ap (λ z. z ∷ y ∷ s) is_at)
    | inr no_ ↦
        let (a, c, b, e') = split_at (y ∷ s) (rw no_ at h) e in (x ∷ a, c, b, ap (λ r. x ∷ r) e')
  ]

  peel :
      (x : ℕ) (s a : Text) (c : ℕ) (b : Text)
      → x == 64 ≡ false
      → x ∷ s ≡ a ++ (64 ∷ c ∷ b)
      → (p : ℕ) × (a' : Text) × (c' : ℕ) × (b' : Text) × (x ∷ s ≡ p ∷ (a' ++ (64 ∷ c' ∷ b')))
  peel x s [] c b n e = let is_at : x ≡ 64 = cc in absurd (ground arith)
  peel x s (p ∷ a) c b n e = (p, a, c, b, e)

  split_valid :
      (s : Text)
      → is_invalid s ≡ false
      → (p : ℕ) × (a : Text) × (c : ℕ) × (b : Text) × (s ≡ p ∷ (a ++ (64 ∷ c ∷ b)))
  unfolding is_invalid starts_with
  split_valid [] h = cc
  split_valid (x ∷ s) h =
      let (a, c, b, e) = split_at (x ∷ s) (ground arith) (ground arith) in
      peel x s a c b (ground arith) e

  -- An address that was accepted is accepted again as it is stored, and has an @ with something before
  -- it and something behind it.
  pub normalized_email :
      (raw email : Text)
      → normalize_email raw ≡ ok email
      → (normalize_email email ≡ ok email)
        × (p : ℕ) × (a : Text) × (c : ℕ) × (b : Text) × (email ≡ p ∷ (a ++ (64 ∷ c ∷ b)))
  unfolding normalize_email
  normalized_email raw email h =
      let s = u.lower (u.strip raw) in
      elim (Bool-cases (is_invalid s)) [
        | inl yes_ ↦ let bad : err (python "ValueError") ≡ ok email = rw yes_ at h in cc
        | inr no_ ↦
            let same : s ≡ email = cc (rw no_ at h) in
            let again : u.lower (u.strip s) ≡ s = u.lower-strip-idem raw in
            let (p, a, c, b, parts) = split_valid s no_ in
            rw (← same) (rw (again, no_) refl, p, a, c, b, parts)
      ]
