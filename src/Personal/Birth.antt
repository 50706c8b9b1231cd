-- ===== src/Personal/Birth.antt =====
-- `validate_birth_date_rules` of app/domain/personal_data/schemas.py.
use iot_server.Prelude.{
  ℕ, ◌+◌, ◌-◌, ◌≤◌, ◌<◌, ◌≡◌, refl, sym, ◌∙◌, arith, Bool-cases, Bool, true, false, ◌⊎◌, ◌↔◌, inl,
  inr, ltb, leb, ◌==◌, ◌&&◌, ◌||◌, if◌then◌else◌,
}
use iot_server.Http.{Result, ok, err, python}

pub record Date : Type 0 where
  pub year : ℕ
  pub month : ℕ
  pub day : ℕ

abbrev pub minimum_age : ℕ
minimum_age = 18

-- The tuple comparison `(a.month, a.day) < (b.month, b.day)`.
abbrev pub earlier_in_year : Date → Date → Bool
earlier_in_year a b = ltb a.month b.month || (a.month == b.month && ltb a.day b.day)

-- `birth > today`
abbrev pub after : Date → Date → Bool
after birth today =
    ltb today.year birth.year || (today.year == birth.year && earlier_in_year today birth)

-- A birth in the future is refused before the subtraction, which therefore stays above zero.
unfoldable pub validate_birth_date_rules : Date → Date → Result Date
validate_birth_date_rules today birth =
    if after birth today
    then err (python "ValueError")
    else (let age = today.year - birth.year - (if earlier_in_year today birth then 1 else 0) in
        if ltb age minimum_age then err (python "ValueError") else ok birth)

-- `a` is the same day as `b` or a later one.
abbrev pub NotBefore : Date → Date → Type 0
NotBefore a b =
    (b.year < a.year)
    ⊎ ((a.year ≡ b.year) × ((b.month < a.month) ⊎ ((a.month ≡ b.month) × (b.day ≤ a.day))))

abbrev pub birthday : ℕ → Date → Date
birthday n birth = record birth { year = birth.year + n }

abbrev reached : Date → Date → Bool
reached a b =
    ltb b.year a.year
    || (a.year == b.year && (ltb b.month a.month || (a.month == b.month && leb b.day a.day)))

reached-NotBefore : (a b : Date) → (reached a b ≡ true) ↔ NotBefore a b
reached-NotBefore a b = (λ h. ground arith, λ h. ground arith)

accepted_reached :
    (today birth : Date)
    → validate_birth_date_rules today birth
      ≡ (if reached today (birthday minimum_age birth) then ok birth else err (python "ValueError"))
unfolding validate_birth_date_rules
accepted_reached today birth = ground arith

-- A birth date is accepted exactly when the eighteenth birthday is today or earlier.
pub validate_birth_date_rules_lem :
    (today birth : Date)
    → (validate_birth_date_rules today birth ≡ ok birth)
      ↔ NotBefore today (birthday minimum_age birth)
validate_birth_date_rules_lem today birth =
    elim (Bool-cases (reached today (birthday minimum_age birth))) [
      | inl yes_ ↦ (
        λ h. (reached-NotBefore today (birthday minimum_age birth)).0 yes_,
        λ h. accepted_reached today birth ∙ rw yes_ refl,
      )
      | inr no_ ↦ (
        λ h.
            let bad : err (python "ValueError") ≡ ok birth =
              sym (rw no_ at (accepted_reached today birth)) ∙ h in
            cc,
        λ h.
            let bad : true ≡ false =
              sym ((reached-NotBefore today (birthday minimum_age birth)).1 h) ∙ no_ in
            cc,
      )
    ]
