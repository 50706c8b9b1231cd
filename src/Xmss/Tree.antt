-- ===== src/Xmss/Tree.antt =====
-- Levels of the tree of app/shared/middleware/auth/auth_xmss/challenge.py over a power of two of leaves.
use Prim.Native.String.{◌++◌}
use iot_server.Prelude.{
  ℕ, zero, suc, ◌+◌, ◌*◌, ◌<◌, ◌≡◌, refl, ap, ◌∙◌, arith, String, List, [], ◌∷◌,
}
use iot_server.Prelude.Lists.{length}
use iot_server.Xmss.{
  Python, hash_hex, normalize, next_level, leaves_from, leaf_from_ots_public_key, ots_public_key,
}

-- The node at an index.
unfoldable pub at_index : ℕ → List String → String
at_index i [] = ""
at_index zero (x ∷ xs) = x
at_index (suc i) (x ∷ xs) = at_index i xs

double_suc : (j : ℕ) → 2 * suc j ≡ suc (suc (2 * j))
double_suc j = omega arith

module _ (py : Python) where
  pub length-next_level :
      (m : ℕ) (xs : List String) → length xs ≡ 2 * m → length (next_level py xs) ≡ m
  unfolding next_level
  length-next_level m [] e = omega arith
  length-next_level m (a ∷ []) e = omega arith
  length-next_level zero (a ∷ b ∷ rest) e = omega arith
  length-next_level (suc m) (a ∷ b ∷ rest) e = omega (arith, length-next_level m rest (omega arith))

  -- A node is the hash of its two children.
  pub at_index-next_level :
      (j : ℕ) (xs : List String)
      → suc (2 * j) < length xs
      → at_index j (next_level py xs)
        ≡ hash_hex py (at_index (2 * j) xs ++ at_index (suc (2 * j)) xs)
  unfolding at_index next_level
  at_index-next_level j [] lt = absurd (omega arith)
  at_index-next_level j (a ∷ []) lt = absurd (omega arith)
  at_index-next_level zero (a ∷ b ∷ rest) lt = refl
  at_index-next_level (suc j) (a ∷ b ∷ rest) lt =
      rw (double_suc j) (at_index-next_level j rest (omega arith))

  -- Nodes that normalizing does not change.
  abbrev pub Normal : List String → Type 0
  Normal xs = (i : ℕ) → i < length xs → normalize py (at_index i xs) ≡ at_index i xs

  pub normalize-hash : (s : String) → normalize py (hash_hex py s) ≡ hash_hex py s
  unfolding normalize hash_hex
  normalize-hash s =
      ap py.drop_0x (ap py.lower (py.strip-hex s) ∙ py.lower-hex s) ∙ py.drop_0x-hex s

  pub next_level-Normal : (m : ℕ) (xs : List String) → length xs ≡ 2 * m → Normal (next_level py xs)
  next_level-Normal m xs e i lt =
      let h = at_index-next_level i xs (omega (arith, length-next_level m xs e)) in
      rw h (normalize-hash _)

  pub at_index-leaves :
      (seed : String) (start n i : ℕ)
      → i < n
      → at_index i (leaves_from py seed start n)
        ≡ leaf_from_ots_public_key py (ots_public_key py seed (start + i))
  unfolding at_index leaves_from
  at_index-leaves seed start zero i lt = absurd (omega arith)
  at_index-leaves seed start (suc n) zero lt =
      ap (λ i. leaf_from_ots_public_key py (ots_public_key py seed i)) (omega arith)
  at_index-leaves seed start (suc n) (suc i) lt =
      at_index-leaves seed (suc start) n i (omega arith)
      ∙ ap (λ k. leaf_from_ots_public_key py (ots_public_key py seed k)) (omega arith)

  pub length-leaves : (seed : String) (start n : ℕ) → length (leaves_from py seed start n) ≡ n
  unfolding leaves_from
  length-leaves seed start zero = refl
  length-leaves seed start (suc n) = ap suc (length-leaves seed (suc start) n)

  pub leaves-Normal : (seed : String) (n : ℕ) → Normal (leaves_from py seed 0 n)
  unfolding leaf_from_ots_public_key
  leaves-Normal seed n i lt =
      rw (at_index-leaves seed 0 n i (omega (arith, length-leaves seed 0 n))) (normalize-hash _)
