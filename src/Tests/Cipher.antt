-- ===== src/Tests/Cipher.antt =====
-- The theorems on AES-CBC at concrete inputs, for objects that are numbers.
use iot_server.Prelude.{
  ℕ, zero, suc, ◌≡◌, refl, sym, ap, String, false, Option, none, some, [], ◌∷◌,
}
use iot_server.Prelude.Lists.{length}
use iot_server.Http.{ok}
use iot_server.Valkey.Memory.{strokes, count_strokes, count_strokes-strokes}
use iot_server.AesCbc.{Bytes, CryptoKey, Library, has_colon, derive_key, encrypt, decrypt}
use iot_server.AesCbc.RoundTrip.{aes_round_trip}
use iot_server.Tests.Encoding.{marked, write_bytes, read_bytes, read-write-bytes}
use iot_server.Tests.Libraries.{zeros}

colon-strokes :
    (n : ℕ) (rest : String) → has_colon rest ≡ false → has_colon (marked (strokes n) rest) ≡ false
unfolding has_colon
colon-strokes zero rest h = rw h refl
colon-strokes (suc n) rest h = rw (colon-strokes n rest h) refl

pub colon-bytes : (b : Bytes) → has_colon (write_bytes b) ≡ false
unfolding has_colon
colon-bytes [] = refl
colon-bytes (n ∷ b) = colon-strokes n (write_bytes b) (colon-bytes b)

abbrev first_tally : Bytes → Option String
first_tally [] = none
first_tally (n ∷ rest) = some (strokes n)

abbrev library : Library ℕ
library = record {
  dumps = strokes;
  loads = λ s. some (count_strokes s);
  encode = λ s. count_strokes s ∷ [];
  decode = first_tally;
  length_of = count_strokes;
  from_hex = λ s. none;
  sha256 = λ b. zeros 32;
  b64encode = write_bytes;
  b64decode = read_bytes;
  cbc_encrypt = λ key iv p. some p;
  cbc_decrypt = λ key iv c. some c;
  loads-dumps = λ n. ap some (count_strokes-strokes n);
  decode-encode = λ n. ap (λ k. some (strokes k)) (count_strokes-strokes n);
  b64decode-b64encode = read-write-bytes;
  b64encode-plain = colon-bytes;
  encrypts = λ key iv p k n w. (p, refl);
  decrypt-encrypt = λ key iv p c e. sym e;
}

abbrev key : CryptoKey
key = record { secret = "my_super_secret_key_2026" }

derived : length (derive_key library key) ≡ 32
unfolding derive_key
derived = refl

aes_round_trip_example :
    (pl : String) × (encrypt library (zeros 16) 7 key ≡ ok pl) × (decrypt library pl key ≡ ok 7)
aes_round_trip_example = aes_round_trip library (zeros 16) 7 key derived refl
