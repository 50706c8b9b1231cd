-- ===== src/AesCbc/RoundTrip.antt =====
-- Encryption and decryption of app/shared/services/cryptography/aes.py, one after the other: the padding,
-- the text of the payload and the cipher.
use Prim.Native.Char.{code}
use Prim.Native.String.{◌++◌}
use text.Mathlib.TextLemmas.{cons-append, nil-append}
use iot_server.Prelude.{
  ℕ, zero, suc, ◌+◌, ◌-◌, ◌%◌, ◌≡◌, refl, ap, ◌∙◌, arith, String, true, false, some, [], ◌∷◌, ◌==◌,
  Bool-cases, inl, inr,
}
use iot_server.Prelude.Lists.{length, take}
use iot_server.Http.{ok}
use iot_server.AesCbc.{
  Bytes, CryptoKey, Library, has_colon, block_size, replicate, join, apply_pkcs7_padding, last_byte,
  without_last, remove_found, remove_pkcs7_padding, before, split_colon, derive_key, encrypt_raw,
  decode_raw, unpad, decrypt_parts, decrypt_raw, encrypt, decrypt, deserialized,
}

length-join : (xs ys : Bytes) → length (join xs ys) ≡ length xs + length ys
unfolding join
length-join [] ys = omega arith
length-join (x ∷ xs) ys = omega (arith, length-join xs ys)

length-replicate : (n b : ℕ) → length (replicate n b) ≡ n
unfolding replicate
length-replicate zero b = refl
length-replicate (suc n) b = ap suc (length-replicate n b)

last_byte-replicate : (n b : ℕ) → last_byte (replicate (suc n) b) ≡ some b
unfolding replicate last_byte
last_byte-replicate zero b = refl
last_byte-replicate (suc n) b = last_byte-replicate n b

last_byte-join :
    (xs : Bytes) (y : ℕ) (ys : Bytes) → last_byte (join xs (y ∷ ys)) ≡ last_byte (y ∷ ys)
unfolding join last_byte
last_byte-join [] y ys = refl
last_byte-join (x ∷ []) y ys = refl
last_byte-join (x ∷ z ∷ xs) y ys = last_byte-join (z ∷ xs) y ys

take-join : (n : ℕ) (xs ys : Bytes) → n ≡ length xs → take n (join xs ys) ≡ xs
unfolding join
take-join zero [] ys e = refl
take-join (suc n) [] ys e = absurd (omega arith)
take-join zero (x ∷ xs) ys e = absurd (omega arith)
take-join (suc n) (x ∷ xs) ys e = ap (λ r. x ∷ r) (take-join n xs ys (omega arith))

remove_padding :
    (plain : Bytes) (n : ℕ)
    → remove_pkcs7_padding (join plain (replicate (suc n) (suc n))) ≡ ok plain
unfolding remove_pkcs7_padding remove_found without_last replicate
remove_padding plain n =
    let len = length-join plain (suc n ∷ replicate n (suc n)) in
    rw (last_byte-join plain (suc n) (replicate n (suc n)), last_byte-replicate n (suc n))
      (ap ok (
        take-join _ plain (suc n ∷ replicate n (suc n))
          (omega (arith, len, length-replicate n (suc n)))))

-- The padding fills the data up to whole blocks, and is removed exactly.
pub remove-apply :
    (plain : Bytes)
    → (length (apply_pkcs7_padding plain) % 16 ≡ 0)
      × (remove_pkcs7_padding (apply_pkcs7_padding plain) ≡ ok plain)
unfolding apply_pkcs7_padding
remove-apply plain =
    let m = block_size - length plain % block_size in
    let positive : m ≡ suc (m - 1) = omega arith in
    (
      omega (arith, length-join plain (replicate m m), length-replicate m m),
      ap (λ k. remove_pkcs7_padding (join plain (replicate k k))) positive
          ∙ remove_padding plain (m - 1),
    )

split-append : (a b : String) → has_colon a ≡ false → split_colon (a ++ (":" ++ b)) ≡ some (a, b)
unfolding has_colon split_colon
split-append String.[] b h = rw (nil-append (":" ++ b), cons-append ":" "" b, nil-append b) refl
split-append (String.◌∷◌ c s) b h = elim (Bool-cases (code c == b':')) [
  | inl yes_ ↦ let bad : true ≡ false = rw yes_ at h in cc
  | inr no_ ↦
      rw (cons-append c s (":" ++ b)) (rw no_ (ap (before c) (split-append s b (rw no_ at h))))
]

module _ {A : Type 0} (lib : Library A) where
  raw_round_trip :
      (iv : Bytes) (obj : A) (key : CryptoKey)
      → length (derive_key lib key) ≡ 32
      → length iv ≡ 16
      → (pl : String) × (encrypt_raw lib iv (lib.dumps obj) key ≡ ok pl)
        × (decrypt_raw lib pl key ≡ ok (lib.dumps obj))
  unfolding encrypt_raw decrypt_raw decrypt_parts unpad decode_raw
  raw_round_trip iv obj key k n =
      let (whole, removed) = remove-apply (lib.encode (lib.dumps obj)) in
      let (c, e) =
        lib.encrypts (derive_key lib key) iv (apply_pkcs7_padding (lib.encode (lib.dumps obj))) k n
          whole in
      (
        lib.b64encode iv ++ (":" ++ lib.b64encode c),
        rw e refl,
        rw
            (
              split-append (lib.b64encode iv) (lib.b64encode c) (lib.b64encode-plain iv),
              lib.b64decode-b64encode iv,
              lib.b64decode-b64encode c,
              lib.decrypt-encrypt _ iv _ c e,
              removed,
              lib.decode-encode obj,
            )
            refl,
      )

  -- For a key that derives to 32 bytes, an object is encrypted, and the payload is decrypted to it.
  pub aes_round_trip :
      (iv : Bytes) (obj : A) (key : CryptoKey)
      → length (derive_key lib key) ≡ 32
      → length iv ≡ 16
      → (pl : String) × (encrypt lib iv obj key ≡ ok pl) × (decrypt lib pl key ≡ ok obj)
  unfolding encrypt decrypt deserialized
  aes_round_trip iv obj key k n =
      let (pl, e, d) = raw_round_trip iv obj key k n in (pl, e, rw (d, lib.loads-dumps obj) refl)
