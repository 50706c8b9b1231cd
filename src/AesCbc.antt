-- ===== src/AesCbc.antt =====
-- app/shared/services/cryptography/{aes,base,json_serializer}.py: AES-CBC with PKCS7 padding, over the
-- libraries `cryptography`, `hashlib`, `base64` and `json`.
pub mod RoundTrip
use Prim.Native.Char.{Char, code}
use Prim.Native.String.{◌++◌}
use iot_server.Prelude.{
  ℕ, zero, suc, ◌-◌, ◌%◌, ◌≡◌, String, Bool, true, false, Option, none, some, List, [], ◌∷◌, ◌==◌,
  if◌then◌else◌,
}
use iot_server.Prelude.Lists.{length, take}
use iot_server.Http.{Result, ok, err, python}

abbrev pub Bytes : Type 0
Bytes = List ℕ

-- The key's text; the encoding of every call is UTF-8.
pub record CryptoKey : Type 0 where
  pub secret : String

-- `has_colon` tells that base64 texts have no ":".
unfoldable pub has_colon : String → Bool
has_colon String.[] = false
has_colon (String.◌∷◌ c s) = let rest = has_colon s in if code c == b':' then true else rest

-- CBC takes keys of 32 bytes here, nonces of 16 and whole blocks; `none` is a ValueError.
pub record Library (A : Type 0) : Type 0 where
  pub dumps : A → String
  pub loads : String → Option A
  pub encode : String → Bytes
  pub decode : Bytes → Option String
  pub length_of : String → ℕ
  pub from_hex : String → Option Bytes
  pub sha256 : Bytes → Bytes
  pub b64encode : Bytes → String
  pub b64decode : String → Option Bytes
  pub cbc_encrypt : Bytes → Bytes → Bytes → Option Bytes
  pub cbc_decrypt : Bytes → Bytes → Bytes → Option Bytes
  pub loads-dumps : (a : A) → loads (dumps a) ≡ some a
  pub decode-encode : (a : A) → decode (encode (dumps a)) ≡ some (dumps a)
  pub b64decode-b64encode : (b : Bytes) → b64decode (b64encode b) ≡ some b
  pub b64encode-plain : (b : Bytes) → has_colon (b64encode b) ≡ false
  pub encrypts :
      (key iv p : Bytes)
      → length key ≡ 32
      → length iv ≡ 16
      → length p % 16 ≡ 0
      → (c : Bytes) × (cbc_encrypt key iv p ≡ some c)
  pub decrypt-encrypt :
      (key iv p c : Bytes) → cbc_encrypt key iv p ≡ some c → cbc_decrypt key iv c ≡ some p

abbrev pub block_size : ℕ
block_size = 16

unfoldable pub replicate : ℕ → ℕ → Bytes
replicate zero b = []
replicate (suc n) b = b ∷ replicate n b

unfoldable pub join : Bytes → Bytes → Bytes
join [] ys = ys
join (x ∷ xs) ys = x ∷ join xs ys

unfoldable pub apply_pkcs7_padding : Bytes → Bytes
unfolding join replicate
apply_pkcs7_padding plain =
    let padding_length = block_size - length plain % block_size in
    join plain (replicate padding_length padding_length)

-- `data[-1]`
unfoldable pub last_byte : Bytes → Option ℕ
last_byte [] = none
last_byte (b ∷ []) = some b
last_byte (b ∷ c ∷ rest) = last_byte (c ∷ rest)

-- `data[:-n]`, which is empty for 0
unfoldable pub without_last : ℕ → Bytes → Bytes
without_last zero plain = []
without_last (suc n) plain = take (length plain - suc n) plain

unfoldable pub remove_found : Option ℕ → Bytes → Result Bytes
unfolding without_last
remove_found none plain = err (python "IndexError")
remove_found (some n) plain = ok (without_last n plain)

unfoldable pub remove_pkcs7_padding : Bytes → Result Bytes
unfolding remove_found last_byte
remove_pkcs7_padding plain = remove_found (last_byte plain) plain

-- `pl.split(":", 1)` into two; a text without ":" cannot be unpacked.
unfoldable pub before : Char → Option (String × String) → Option (String × String)
before c none = none
before c (some (a, b)) = some (String.◌∷◌ c a, b)

unfoldable pub split_colon : String → Option (String × String)
unfolding before
split_colon String.[] = none
split_colon (String.◌∷◌ c s) =
    let rest = split_colon s in if code c == b':' then some ("", s) else before c rest

abbrev pub or_value_error : {A : Type 0} → Option A → Result A
or_value_error none = err (python "ValueError")
or_value_error (some a) = ok a

module _ {A : Type 0} (lib : Library A) where
  unfoldable pub hex_or_digest : Option Bytes → CryptoKey → Bytes
  hex_or_digest none key = lib.sha256 (lib.encode key.secret)
  hex_or_digest (some b) key = b

  unfoldable pub derive_key : CryptoKey → Bytes
  unfolding hex_or_digest
  derive_key key =
      if lib.length_of key.secret == 64
      then hex_or_digest (lib.from_hex key.secret) key
      else lib.sha256 (lib.encode key.secret)

  unfoldable pub payload : Bytes → Option Bytes → Result String
  payload iv none = err (python "ValueError")
  payload iv (some ciphertext) = ok (lib.b64encode iv ++ (":" ++ lib.b64encode ciphertext))

  -- `iv` is what `os.urandom(16)` draws.
  unfoldable pub encrypt_raw : Bytes → String → CryptoKey → Result String
  unfolding payload
  encrypt_raw iv raw key =
      payload iv (lib.cbc_encrypt (derive_key key) iv (apply_pkcs7_padding (lib.encode raw)))

  unfoldable pub decode_raw : Result Bytes → Result String
  decode_raw (err e) = err e
  decode_raw (ok b) = or_value_error (lib.decode b)

  unfoldable pub unpad : Option Bytes → Result String
  unfolding decode_raw
  unpad none = err (python "ValueError")
  unpad (some padded) = decode_raw (remove_pkcs7_padding padded)

  unfoldable pub decrypt_parts : CryptoKey → Option Bytes → Option Bytes → Result String
  decrypt_parts key none ciphertext = err (python "ValueError")
  decrypt_parts key (some iv) none = err (python "ValueError")
  decrypt_parts key (some iv) (some ciphertext) =
      unpad (lib.cbc_decrypt (derive_key key) iv ciphertext)

  unfoldable pub decrypt_split : CryptoKey → Option (String × String) → Result String
  unfolding decrypt_parts
  decrypt_split key none = err (python "ValueError")
  decrypt_split key (some (iv, ciphertext)) =
      decrypt_parts key (lib.b64decode iv) (lib.b64decode ciphertext)

  unfoldable pub decrypt_raw : String → CryptoKey → Result String
  unfolding decrypt_split
  decrypt_raw pl key = decrypt_split key (split_colon pl)

  unfoldable pub encrypt : Bytes → A → CryptoKey → Result String
  encrypt iv obj key = encrypt_raw iv (lib.dumps obj) key

  unfoldable pub deserialized : Result String → Result A
  deserialized (err e) = err e
  deserialized (ok raw) = or_value_error (lib.loads raw)

  unfoldable pub decrypt : String → CryptoKey → Result A
  unfolding deserialized
  decrypt pl key = deserialized (decrypt_raw pl key)
