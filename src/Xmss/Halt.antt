-- ===== src/Xmss/Halt.antt =====
-- The `while` loop of the tree in app/shared/middleware/auth/auth_xmss/challenge.py.
use iot_server.Prelude.{
  ℕ, zero, suc, ◌+◌, ◌*◌, ◌<◌, ◌≤◌, ◌≡◌, refl, ap, ◌∙◌, arith, false, String, List, [], ◌∷◌, ltb,
  Bool-cases, inl, inr, ltb→lt,
}
use iot_server.Prelude.Lists.{length}
use iot_server.Xmss.{Python, next_level, levels, last_level}

module _ (py : Python) where
  length-half : (xs : List String) → 2 * length (next_level py xs) ≤ suc (length xs)
  unfolding next_level
  length-half [] = omega arith
  length-half (a ∷ []) = omega arith
  length-half (a ∷ b ∷ rest) = omega (arith, length-half rest)

  length-positive : (xs : List String) → 0 < length xs → 0 < length (next_level py xs)
  unfolding next_level
  length-positive [] lt = lt
  length-positive (a ∷ []) lt = omega arith
  length-positive (a ∷ b ∷ rest) lt = omega arith

  not_more : (xs : List String) → length xs ≤ 1 → ltb 1 (length xs) ≡ false
  not_more xs le = ground arith

  levels_enough :
      (f g : ℕ) (xs : List String)
      → length xs ≤ suc f
      → length xs ≤ suc g
      → levels py f xs ≡ levels py g xs
  unfolding levels
  levels_enough zero zero xs hf hg = refl
  levels_enough zero (suc g) xs hf hg = rw (not_more xs hf) refl
  levels_enough (suc f) zero xs hf hg = rw (not_more xs hg) refl
  levels_enough (suc f) (suc g) xs hf hg = elim (Bool-cases (ltb 1 (length xs))) [
    | inl more ↦
        let lt : 1 < length xs = ltb→lt 1 (length xs) more in
        rw more (
          ap (λ ls. xs ∷ ls)
            (levels_enough f g (next_level py xs) (omega (arith, length-half xs))
              (omega (arith, length-half xs))))
    | inr done ↦ rw done refl
  ]

  last_level-cons :
      (xs : List String) (f : ℕ) (ys : List String)
      → last_level py (xs ∷ levels py f ys) ≡ last_level py (levels py f ys)
  unfolding levels last_level
  last_level-cons xs zero ys = refl
  last_level-cons xs (suc f) ys = elim (Bool-cases (ltb 1 (length ys))) [
    | inl more ↦ rw more refl
    | inr done ↦ rw done refl
  ]

  levels_root :
      (f : ℕ) (xs : List String)
      → 0 < length xs
      → length xs ≤ suc f
      → length (last_level py (levels py f xs)) ≡ 1
  unfolding levels
  levels_root zero xs pos le = unfold last_level in omega arith
  levels_root (suc f) xs pos le = elim (Bool-cases (ltb 1 (length xs))) [
    | inl more ↦
        let lt : 1 < length xs = ltb→lt 1 (length xs) more in
        rw more (
          ap length (last_level-cons xs f (next_level py xs))
          ∙ levels_root f (next_level py xs) (length-positive xs pos)
              (omega (arith, length-half xs)))
    | inr done ↦ rw done (unfold last_level in ground (arith, done))
  ]

  -- The loop over any leaves ends: with as much fuel as there are leaves, its levels are those of any
  -- larger fuel, and the last of them is one node.
  pub levels_halt :
      (xs : List String) (more : ℕ)
      → 0 < length xs
      → (levels py (length xs + more) xs ≡ levels py (length xs) xs)
        × (length (last_level py (levels py (length xs) xs)) ≡ 1)
  levels_halt xs more pos = (
    levels_enough (length xs + more) (length xs) xs (omega arith) (omega arith),
    levels_root (length xs) xs pos (omega arith),
  )
