-- ===== src/Puzzle/Verified.antt =====
-- Which puzzles are accepted.
use iot_server.Prelude.{
  ℕ, zero, suc, ◌≤◌, ◌≡◌, ◌↔◌, refl, sym, ◌∙◌, ap, arith, true, false, Option, none, some, [], ◌∷◌,
  ◌++◌, ltb, ◌==◌, Bool-cases, and_true, inl, inr, le→not_ltb,
}
use iot_server.Prelude.Lists.{
  length, take, drop, length-append, length-take, length-drop, take-drop, drop-drop,
}
use iot_server.Puzzle.{
  Bytes, PuzzleLibrary, PuzzlePayload, valid, failed, from_bytes, distance, same_bytes,
  decrypt_payload, p2_of, check_decrypted, check_if, verify,
}

same_bytes_eq : (a b : Bytes) → same_bytes a b ≡ true → a ≡ b
unfolding same_bytes
same_bytes_eq [] [] h = refl
same_bytes_eq [] (b ∷ bs) h = cc
same_bytes_eq (a ∷ as_) [] h = cc
same_bytes_eq (a ∷ as_) (b ∷ bs) h =
    let (here, rest) = and_true (a == b) _ h in
    let e : a ≡ b = ground arith in cc (e, same_bytes_eq as_ bs rest)

same_bytes_refl : (a : Bytes) → same_bytes a a ≡ true
unfolding same_bytes
same_bytes_refl [] = refl
same_bytes_refl (a ∷ as_) = ground (arith, same_bytes_refl as_)

take_append : (xs ys : Bytes) (n : ℕ) → length xs ≡ n → take n (xs ++ ys) ≡ xs
take_append [] ys zero e = refl
take_append [] ys (suc n) e = absurd (omega arith)
take_append (x ∷ xs) ys zero e = absurd (omega arith)
take_append (x ∷ xs) ys (suc n) e = ap (λ zs. x ∷ zs) (take_append xs ys n (omega arith))

drop_append : (xs ys : Bytes) (n : ℕ) → length xs ≡ n → drop n (xs ++ ys) ≡ ys
drop_append [] ys zero e = refl
drop_append [] ys (suc n) e = absurd (omega arith)
drop_append (x ∷ xs) ys zero e = absurd (omega arith)
drop_append (x ∷ xs) ys (suc n) e = drop_append xs ys n (omega arith)

module _ (lib : PuzzleLibrary) (server_key key : Bytes) where
  -- What an honest client encrypts: P2, R2 and the time, and what else it sends.
  abbrev pub solution : Bytes → Bytes → Bytes → Bytes
  solution r2 time rest = p2_of lib server_key key (r2 ++ time) ++ (r2 ++ (time ++ rest))

  -- The puzzle decrypts to the solution for some R2 of 32 bytes and some time of 8 bytes that is at most
  -- a minute from `now`.
  abbrev pub Solves : ℕ → Option Bytes → Type 0
  Solves now decrypted =
      (r2 : Bytes) × (time : Bytes) × (rest : Bytes) × (length r2 ≡ 32)
      × (length time ≡ 8)
      × (distance (from_bytes 0 time) now ≤ 60)
      × (decrypted ≡ some (solution r2 time rest))

  parts : (d : Bytes) → d ≡ take 32 d ++ (take 32 (drop 32 d) ++ (take 8 (drop 64 d) ++ drop 72 d))
  parts d =
      let fourth = sym (drop-drop 64 8 d) in
      let third = sym (take-drop 8 (drop 64 d)) ∙ ap (λ r. take 8 (drop 64 d) ++ r) (sym fourth) in
      let second =
        sym (take-drop 32 (drop 32 d))
        ∙ ap (λ r. take 32 (drop 32 d) ++ r) (drop-drop 32 32 d ∙ third) in
      sym (take-drop 32 d) ∙ ap (λ r. take 32 d ++ r) second

  checked :
      (now : ℕ) (d : Bytes) → check_decrypted lib server_key key now d ≡ valid → Solves now (some d)
  unfolding check_decrypted
  checked now d h = elim (Bool-cases (ltb (length d) 72)) [
    | inl short ↦ let bad : failed ≡ valid = rw short at h in cc
    | inr long ↦ elim (Bool-cases (ltb 60 (distance (from_bytes 0 (take 8 (drop 64 d))) now))) [
      | inl late ↦ let bad : failed ≡ valid = rw (long, late) at h in cc
      | inr near ↦
          elim (Bool-cases (
            same_bytes (take 32 d)
              (p2_of lib server_key key (take 32 (drop 32 d) ++ take 8 (drop 64 d))))) [
                | inr other ↦ let bad : failed ≡ valid = rw (long, near, other) at h in cc
                | inl same ↦
                    let enough : 72 ≤ length d = ground arith in
                    let p2 = same_bytes_eq (take 32 d) _ same in
                    (
                      take 32 (drop 32 d),
                      take 8 (drop 64 d),
                      drop 72 d,
                      omega (arith, length-take 32 (drop 32 d), length-drop 32 d),
                      omega (arith, length-take 8 (drop 64 d), length-drop 64 d),
                      ground arith,
                      ap some (
                          parts d
                          ∙ ap
                              (λ p. p ++ (take 32 (drop 32 d) ++ (take 8 (drop 64 d) ++ drop 72 d)))
                              p2),
                    )
              ]
    ]
  ]

  solution-checked :
      (now : ℕ) (r2 time rest : Bytes)
      → length r2 ≡ 32
      → length time ≡ 8
      → distance (from_bytes 0 time) now ≤ 60
      → check_decrypted lib server_key key now (solution r2 time rest) ≡ valid
  unfolding check_decrypted
  solution-checked now r2 time rest l8 l32 near =
      let p2 = p2_of lib server_key key (r2 ++ time) in
      let p2_length : length p2 ≡ 32 =
        unfold p2_of in lib.hmac-length (key ++ server_key) (r2 ++ time) in
      let d = solution r2 time rest in
      let first : take 32 d ≡ p2 = take_append p2 _ 32 p2_length in
      let behind : drop 32 d ≡ r2 ++ (time ++ rest) = drop_append p2 _ 32 p2_length in
      let second : take 32 (drop 32 d) ≡ r2 =
        ap (take 32) behind ∙ take_append r2 (time ++ rest) 32 l8 in
      let third : take 8 (drop 64 d) ≡ time =
        ap (take 8)
          (sym (drop-drop 32 32 d) ∙ (ap (drop 32) behind ∙ drop_append r2 (time ++ rest) 32 l8))
        ∙ take_append time rest 8 l32 in
      let long : ltb (length d) 72 ≡ false = le→not_ltb (length d) 72 (
        omega (
          arith,
          length-append p2 (r2 ++ (time ++ rest)),
          length-append r2 (time ++ rest),
          length-append time rest,
        )) in
      let close : ltb 60 (distance (from_bytes 0 time) now) ≡ false =
        le→not_ltb 60 (distance (from_bytes 0 time) now) near in
      rw (long, third, close, first, second, same_bytes_refl p2) refl

  -- A puzzle is accepted exactly when it decrypts to a solution: a random R2 of 32 bytes, a time of 8
  -- bytes that is at most a minute from now, and before them the tag of both under the key.
  pub verify-valid :
      (puzzle : PuzzlePayload) (now : ℕ)
      → (verify lib server_key key puzzle now ≡ valid)
        ↔ Solves now (decrypt_payload lib server_key puzzle key)
  unfolding verify
  verify-valid puzzle now = (
    checked_if (decrypt_payload lib server_key puzzle key),
    solved_if (decrypt_payload lib server_key puzzle key),
  )
    where
      checked_if : (d : Option Bytes) → check_if lib server_key key now d ≡ valid → Solves now d
      checked_if none h = unfold check_if in cc
      checked_if (some d) h = unfold check_if in checked now d h

      solved_if : (d : Option Bytes) → Solves now d → check_if lib server_key key now d ≡ valid
      solved_if d (r2, time, rest, a, b, c, e) =
          unfold check_if in rw e (solution-checked now r2 time rest a b c)
