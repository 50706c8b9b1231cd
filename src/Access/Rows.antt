-- ===== src/Access/Rows.antt =====
-- Lists of rows: which of them a test selects, and rows with unique ids.
use iot_server.Prelude.{
  ℕ, zero, suc, ◌≡◌, refl, sym, ◌∙◌, ap, arith, String, Bool, true, false, List, [], ◌∷◌, ◌++◌,
  str_eq, eq_iff, eq_refl, ◌&&◌, ◌||◌,
}
use iot_server.Prelude.Lists.{take, drop}
use iot_server.Access.{rows_where, any}
use iot_server.Access.Views.{any-append}
use iot_server.Access.Counting.{unique}

pub any_at {ℓ} :
    {A : Type ℓ} (p : A → Bool) (pre xs : List A) (x : A)
    → any p (pre ++ x ∷ xs) ≡ any p pre || (p x || any p xs)
any_at p pre xs x = any-append p pre (x ∷ xs)

pub any_and {ℓ} :
    {A : Type ℓ} (p g : A → Bool) (xs : List A)
    → any p xs ≡ false
    → any (λ y. p y && g y) xs ≡ false
any_and p g [] h = refl
any_and p g (x ∷ xs) h = ground (arith, any_and p g xs)

module _ {A : Type 0} (id : A → String) where
  -- With unique ids, a row is the only one with its id.
  pub only :
      (g : A → Bool) (pre : List A) (x : A) (xs : List A)
      → unique id (pre ++ x ∷ xs) ≡ true
      → any (λ y. str_eq (id x) (id y) && g y) (pre ++ x ∷ xs) ≡ g x
  only g [] x xs u = ground (arith, eq_refl (id x), any_and (λ y. str_eq (id x) (id y)) g xs)
  only g (p ∷ pre) x xs u = ground (
    arith,
    any_at (λ y. str_eq (id p) (id y)) pre xs x,
    eq_iff (id x) (id p),
    eq_iff (id p) (id x),
    only g pre x xs,
  )

  pub append_snoc : (pre : List A) (x : A) (xs : List A) → (pre ++ x ∷ []) ++ xs ≡ pre ++ x ∷ xs
  append_snoc [] x xs = refl
  append_snoc (p ∷ pre) x xs = ap (λ ys. p ∷ ys) (append_snoc pre x xs)

  -- Two tests that agree at every row of a table select the same rows.
  pub same_rows :
      (p q : A → Bool) (all pre xs : List A)
      → all ≡ pre ++ xs
      → ((before : List A) (x : A) (after : List A) → all ≡ before ++ x ∷ after → p x ≡ q x)
      → rows_where p xs ≡ rows_where q xs
  same_rows p q all pre [] e agree = refl
  same_rows p q all pre (x ∷ xs) e agree =
      let rest = same_rows p q all (pre ++ x ∷ []) xs (e ∙ sym (append_snoc pre x xs)) agree in
      rw (agree pre x xs e, rest) refl

  pub every_row : (xs : List A) → rows_where (λ x. true) xs ≡ xs
  every_row [] = refl
  every_row (x ∷ xs) = ap (λ ys. x ∷ ys) (every_row xs)

  pub no_row : (xs : List A) → rows_where (λ x. false) xs ≡ []
  no_row [] = refl
  no_row (x ∷ xs) = no_row xs

pub any-drop {ℓ} :
    {A : Type ℓ} (q : A → Bool) (n : ℕ) (xs : List A) → any q xs ≡ false → any q (drop n xs) ≡ false
any-drop q zero xs h = h
any-drop q (suc n) [] h = refl
any-drop q (suc n) (x ∷ xs) h = any-drop q n xs (ground arith)

pub any-take {ℓ} :
    {A : Type ℓ} (q : A → Bool) (n : ℕ) (xs : List A) → any q xs ≡ false → any q (take n xs) ≡ false
any-take q zero xs h = refl
any-take q (suc n) [] h = refl
any-take q (suc n) (x ∷ xs) h = ground (arith, any-take q n xs)
