-- ===== src/Personal/Curp/Digit.antt =====
-- What the check digit of a CURP detects.
use iot_server.Prelude.{
  ℕ, suc, ◌+◌, ◌-◌, ◌*◌, ◌%◌, ◌≡◌, ◌≢◌, refl, sym, ◌∙◌, ap, arith, Bool, true, Option, none, some,
  [], ◌∷◌, ◌++◌, ◌==◌, Bool-cases, Option-cases, inl, inr,
}
use native.Mathlib.Nat.{zero-add}
use iot_server.Prelude.Lists.{length}
use iot_server.Personal.{Text, one_of}
use iot_server.Personal.Curp.{
  curp_alphabet, index_from, plus, weighted, digit_of, digit_if, calculate_curp_check_digit,
}

digit_of_mod : (s t : ℕ) → digit_of s ≡ digit_of t → s % 10 ≡ t % 10
unfolding digit_of
digit_of_mod s t h = ground arith

plus-some :
    (w : ℕ) (v rest : Option ℕ) {t : ℕ}
    → plus w v rest ≡ some t
    → (x : ℕ) × (r : ℕ) × (v ≡ some x) × (rest ≡ some r) × (t ≡ x * w + r)
plus-some w none rest h = cc
plus-some w (some x) none h = cc
plus-some w (some x) (some r) h = (x, r, refl, refl, ground arith)

swap_sum : (a b r : ℕ) → a + r + b ≡ b + r + a
swap_sum a b r = omega arith

shift_sum : (a r q b c : ℕ) → r + b ≡ q + c → a + r + b ≡ a + q + c
shift_sum a r q b c h = omega arith

-- Two texts that differ in one character have totals that differ by the weighted values.
totals :
    (i : ℕ) (pre post : Text) (c d : ℕ) {v w s t : ℕ}
    → index_from 0 curp_alphabet c ≡ some v
    → index_from 0 curp_alphabet d ≡ some w
    → weighted i (pre ++ c ∷ post) ≡ some s
    → weighted i (pre ++ d ∷ post) ≡ some t
    → s + w * (18 - (i + length pre)) ≡ t + v * (18 - (i + length pre))
unfolding weighted
totals i [] post c d {v} {w} {s} {t} hc hd hs ht =
    let (x, r, ex, er, es) =
      plus-some (18 - i) (index_from 0 curp_alphabet c) (weighted (suc i) post) hs in
    let (y, q, ey, eq, et) =
      plus-some (18 - i) (index_from 0 curp_alphabet d) (weighted (suc i) post) ht in
    let vx : v ≡ x = cc in
    let wy : w ≡ y = cc in
    let rq : r ≡ q = cc in
    let k : 18 - (i + 0) ≡ 18 - i = omega arith in
    rw (k, es, et, vx, wy, rq) (swap_sum (x * (18 - i)) (y * (18 - i)) q)
totals i (p ∷ pre) post c d {v} {w} {s} {t} hc hd hs ht =
    let (x, r, ex, er, es) =
      plus-some (18 - i) (index_from 0 curp_alphabet p) (weighted (suc i) (pre ++ c ∷ post)) hs in
    let (y, q, ey, eq, et) =
      plus-some (18 - i) (index_from 0 curp_alphabet p) (weighted (suc i) (pre ++ d ∷ post)) ht in
    let xy : x ≡ y = cc in
    let k : 18 - (i + suc (length pre)) ≡ 18 - (suc i + length pre) = omega arith in
    rw (k, es, et, xy) (shift_sum (y * (18 - i)) r q _ _ (totals (suc i) pre post c d hc hd er eq))

-- Weights that have no factor in common with 10.
abbrev pub is_guarded : ℕ → Bool
is_guarded = one_of (1 ∷ 5 ∷ 7 ∷ 9 ∷ 11 ∷ 15 ∷ [])

check_digit-some :
    (s : Text) {d : ℕ}
    → calculate_curp_check_digit s ≡ some d
    → (t : ℕ) × (weighted 0 s ≡ some t) × (digit_of t ≡ d)
unfolding calculate_curp_check_digit digit_if
check_digit-some s h = elim (Option-cases (weighted 0 s)) [
  | inl none_ ↦ let bad : none ≡ some _ = sym (ap digit_if none_) ∙ h in cc
  | inr (t, some_) ↦
      let e : some (digit_of t) ≡ some _ = sym (ap digit_if some_) ∙ h in (t, some_, cc)
]

-- Values that the weight does not tell apart are equal in their last digit.
told_apart :
    (i v w s t : ℕ)
    → is_guarded i ≡ true
    → s + w * (18 - i) ≡ t + v * (18 - i)
    → s % 10 ≡ t % 10
    → v % 10 ≡ w % 10
unfolding one_of
told_apart i v w s t g e m = elim (Bool-cases (i == 1)) [
  | inl a ↦ at 1 (ground arith) (λ h. omega arith)
  | inr a ↦ elim (Bool-cases (i == 5)) [
    | inl b ↦ at 5 (ground arith) (λ h. omega arith)
    | inr b ↦ elim (Bool-cases (i == 7)) [
      | inl c ↦ at 7 (ground arith) (λ h. omega arith)
      | inr c ↦ elim (Bool-cases (i == 9)) [
        | inl d ↦ at 9 (ground arith) (λ h. omega arith)
        | inr d ↦ elim (Bool-cases (i == 11)) [
          | inl f ↦ at 11 (ground arith) (λ h. omega arith)
          | inr f ↦ at 15 (ground arith) (λ h. omega arith)
        ]
      ]
    ]
  ]
]
  where
    at : (k : ℕ) → i ≡ k → (s + w * (18 - k) ≡ t + v * (18 - k) → v % 10 ≡ w % 10) → v % 10 ≡ w % 10
    at k ik use_ = use_ (rw (sym ik) e)

-- Where two texts of a CURP differ in one character at one of the places 1, 5, 7, 9, 11 and 15, and the
-- values of the two characters differ in their last digit, the check digits differ.
pub substitution_detected :
    (pre post : Text) (c d v w p q : ℕ)
    → is_guarded (length pre) ≡ true
    → index_from 0 curp_alphabet c ≡ some v
    → index_from 0 curp_alphabet d ≡ some w
    → v % 10 ≢ w % 10
    → calculate_curp_check_digit (pre ++ c ∷ post) ≡ some p
    → calculate_curp_check_digit (pre ++ d ∷ post) ≡ some q
    → p ≢ q
substitution_detected pre post c d v w p q g hc hd ne hp hq =
    let (s, es, ds) = check_digit-some (pre ++ c ∷ post) hp in
    let (t, et, dt) = check_digit-some (pre ++ d ∷ post) hq in
    λ same. ne (
      told_apart (length pre) v w s t g
        (rw (zero-add (length pre)) at (totals 0 pre post c d hc hd es et))
        (digit_of_mod s t (ds ∙ (same ∙ sym dt))))
