-- ===== src/Xmss/Path.antt =====
-- Authentication paths in the tree of app/shared/middleware/auth/auth_xmss/challenge.py.
use iot_server.Prelude.{
  ℕ, zero, suc, ◌*◌, ◌/◌, ◌%◌, ◌^◌, ◌≤◌, ◌<◌, ◌≡◌, refl, sym, ap, ◌∙◌, arith, String, Bool, true,
  false, some, List, [], ◌∷◌, ltb, lt→ltb, ◌==◌, if◌then◌else◌, Bool-cases, inl, inr, ◌⊎◌,
}
use iot_server.Prelude.Lists.{length}
use iot_server.Xmss.{
  Python, left, right, AuthPathNode, normalize, combine, climb, reconstruct_root, next_level,
  levels, build_tree, last_level, first_node, public_root, leaves_from, leaf_from_ots_public_key,
  ots_public_key,
}
use iot_server.Xmss.Tree.{
  at_index, length-next_level, at_index-next_level, Normal, next_level-Normal, at_index-leaves,
  length-leaves, leaves-Normal,
}

parity : (i : ℕ) → (i % 2 ≡ 0) ⊎ (i % 2 ≡ 1)
parity i = elim (Bool-cases (i % 2 == 0)) [
  | inl yes_ ↦ inl (ground arith)
  | inr no_ ↦ inr (ground arith)
]

two_pow_pos : (h : ℕ) → 0 < 2 ^ h
two_pow_pos zero = omega arith
two_pow_pos (suc h) = omega (arith, two_pow_pos h)

height_lt : (h : ℕ) → h ≤ 2 ^ h
height_lt zero = omega arith
height_lt (suc h) = omega (arith, height_lt h, two_pow_pos h)

module _ (py : Python) where
  -- The sibling of a node: to the right of an even index, to the left of an odd one.
  pub sibling : ℕ → List String → AuthPathNode
  sibling i xs =
      if i % 2 == 0
      then record { position = right; value = at_index (suc i) xs }
      else record { position = left; value = at_index (2 * (i / 2)) xs }

  -- The siblings on the way from a leaf to the root, in a tree of the height.
  pub auth_path : ℕ → List String → ℕ → List AuthPathNode
  auth_path zero xs i = []
  auth_path (suc h) xs i = sibling i xs ∷ auth_path h (next_level py xs) (i / 2)

  root : ℕ → List String → String
  root zero xs = at_index 0 xs
  root (suc h) xs = root h (next_level py xs)

  combine-even :
      (xs : List String) (i j : ℕ)
      → i ≡ 2 * j
      → suc (2 * j) < length xs
      → Normal py xs
      → combine py (sibling i xs).position (normalize py (sibling i xs).value) (at_index i xs)
        ≡ at_index j (next_level py xs)
  unfolding sibling combine
  combine-even xs i j e lt normal =
      let even : (i % 2 == 0) ≡ true = ground arith in
      let there : normalize py (at_index (suc i) xs) ≡ at_index (suc i) xs =
        normal (suc i) (omega arith) in
      rw even (rw there (rw e (sym (at_index-next_level py j xs lt))))

  combine-odd :
      (xs : List String) (i j : ℕ)
      → i ≡ suc (2 * j)
      → i < length xs
      → Normal py xs
      → combine py (sibling i xs).position (normalize py (sibling i xs).value) (at_index i xs)
        ≡ at_index j (next_level py xs)
  unfolding sibling combine
  combine-odd xs i j e lt normal =
      let odd : (i % 2 == 0) ≡ false = ground arith in
      let half : i / 2 ≡ j = omega arith in
      rw odd (
        rw half (
          rw (normal (2 * j) (omega arith))
            (rw e (sym (at_index-next_level py j xs (omega arith))))))

  -- A node and its sibling give their parent.
  combine-sibling :
      (xs : List String) (m i : ℕ)
      → length xs ≡ 2 * m
      → i < length xs
      → Normal py xs
      → combine py (sibling i xs).position (normalize py (sibling i xs).value) (at_index i xs)
        ≡ at_index (i / 2) (next_level py xs)
  combine-sibling xs m i e lt normal = elim (parity i) [
    | inl even ↦ combine-even xs i (i / 2) (omega arith) (omega arith) normal
    | inr odd ↦ combine-odd xs i (i / 2) (omega arith) lt normal
  ]

  climb-nil : (current : String) → climb py current [] ≡ current
  unfolding climb
  climb-nil current = refl

  climb-cons :
      (current : String) (n : AuthPathNode) (ns : List AuthPathNode)
      → climb py current (n ∷ ns)
        ≡ climb py (combine py n.position (normalize py n.value) current) ns
  unfolding climb
  climb-cons current n ns = refl

  climb-root :
      (h : ℕ) (xs : List String) (i : ℕ)
      → length xs ≡ 2 ^ h
      → i < length xs
      → Normal py xs
      → climb py (at_index i xs) (auth_path h xs i) ≡ root h xs
  unfolding auth_path root
  climb-root zero xs i e lt normal =
      climb-nil (at_index i xs) ∙ ap (λ k. at_index k xs) (omega arith)
  climb-root (suc h) xs i e lt normal =
      let twice : length xs ≡ 2 * 2 ^ h = omega arith in
      let above = length-next_level py (2 ^ h) xs twice in
      climb-cons (at_index i xs) (sibling i xs) (auth_path h (next_level py xs) (i / 2))
      ∙ ap (λ c. climb py c (auth_path h (next_level py xs) (i / 2)))
          (combine-sibling xs (2 ^ h) i twice lt normal)
      ∙ climb-root h (next_level py xs) (i / 2) above (omega arith)
          (next_level-Normal py (2 ^ h) xs twice)

  first_node-one :
      (xs : List String)
      → length xs ≡ 1
      → first_node py (last_level py (xs ∷ [])) ≡ some (at_index 0 xs)
  unfolding first_node last_level at_index
  first_node-one [] e = absurd (omega arith)
  first_node-one (x ∷ xs) e = refl

  last_level-if :
      (xs ys : List String) (ls : List (List String)) (b : Bool)
      → last_level py (xs ∷ (if b then ys ∷ ls else ys ∷ []))
        ≡ last_level py (if b then ys ∷ ls else ys ∷ [])
  unfolding last_level
  last_level-if xs ys ls true = refl
  last_level-if xs ys ls false = refl

  last_level-cons :
      (fuel : ℕ) (xs ys : List String)
      → last_level py (xs ∷ levels py fuel ys) ≡ last_level py (levels py fuel ys)
  unfolding levels
  last_level-cons zero xs ys = last_level-if xs ys [] true
  last_level-cons (suc fuel) xs ys =
      last_level-if xs ys (levels py fuel (next_level py ys)) (ltb 1 (length ys))

  -- With fuel for every level, the last level is the root alone.
  last_level-levels :
      (h fuel : ℕ) (xs : List String)
      → length xs ≡ 2 ^ h
      → h ≤ fuel
      → first_node py (last_level py (levels py fuel xs)) ≡ some (root h xs)
  unfolding levels root
  last_level-levels zero zero xs e le = first_node-one xs e
  last_level-levels zero (suc fuel) xs e le =
      let stop : ltb 1 (length xs) ≡ false = ground arith in rw stop (first_node-one xs e)
  last_level-levels (suc h) zero xs e le = absurd (omega arith)
  last_level-levels (suc h) (suc fuel) xs e le =
      let twice : length xs ≡ 2 * 2 ^ h = omega arith in
      let more : ltb 1 (length xs) ≡ true = lt→ltb 1 (length xs) (omega (arith, two_pow_pos h)) in
      rw more (
        ap (first_node py) (last_level-cons fuel xs (next_level py xs))
        ∙ last_level-levels h fuel (next_level py xs) (length-next_level py (2 ^ h) xs twice)
            (omega arith))

  -- In the tree of any seed and height, the one-time key of each leaf with the siblings on its way up
  -- reconstructs the public root.
  pub reconstruct-root :
      (seed : String) (height index : ℕ)
      → index < 2 ^ height
      → public_root py seed height
        ≡ some (
            reconstruct_root py
              (ots_public_key py seed index)
              (auth_path height (leaves_from py seed 0 (2 ^ height)) index))
  unfolding public_root build_tree reconstruct_root
  reconstruct-root seed height index lt =
      let leaves = leaves_from py seed 0 (2 ^ height) in
      let len = length-leaves py seed 0 (2 ^ height) in
      last_level-levels height (2 ^ height) leaves len (height_lt height)
      ∙ ap some (
          sym (
            climb-root height leaves index len (omega (arith, len))
              (leaves-Normal py seed (2 ^ height)))
          ∙ ap (λ leaf. climb py leaf (auth_path height leaves index))
              (at_index-leaves py seed 0 (2 ^ height) index lt
                ∙ ap (λ k. leaf_from_ots_public_key py (ots_public_key py seed k)) (omega arith)))
