-- ===== src/E2e/Crypto.antt =====
-- app/shared/crypto.py, over the libraries `cryptography`, `hashlib` and `base64`.
use Prim.Native.String.{◌++◌}
use iot_server.Prelude.{ℕ, ◌≡◌, String, Bool, Option, none, some, List, str_eq}
use iot_server.Prelude.Lists.{length}

abbrev pub Bytes : Type 0
Bytes = List ℕ

-- SHA-256, HKDF-SHA256 and AES-GCM; the hex and base64 texts of bytes. AES-GCM takes keys of 32 bytes
-- here, and what was encrypted is decrypted under the same key and nonce.
pub record CryptoLibrary : Type 0 where
  pub utf8 : String → Bytes
  pub sha256_hexdigest : Bytes → String
  pub hkdf : Option Bytes → String → Bytes → Bytes
  pub gcm_encrypt : Bytes → Bytes → Bytes → Option Bytes
  pub gcm_decrypt : Bytes → Bytes → Bytes → Option Bytes
  pub hex : Bytes → String
  pub from_hex : String → Option Bytes
  pub b64encode : Bytes → String
  pub b64decode : String → Option Bytes
  pub hkdf-length :
      (salt : Option Bytes) (info : String) (ikm : Bytes) → length (hkdf salt info ikm) ≡ 32
  pub encrypts :
      (key iv p : Bytes)
      → length key ≡ 32
      → length iv ≡ 12
      → (ct : Bytes) × (gcm_encrypt key iv p ≡ some ct)
  pub decrypt-encrypt :
      (key iv p ct : Bytes) → gcm_encrypt key iv p ≡ some ct → gcm_decrypt key iv ct ≡ some p
  pub from_hex-hex : (b : Bytes) → from_hex (hex b) ≡ some b
  pub b64decode-b64encode : (b : Bytes) → b64decode (b64encode b) ≡ some b

module _ (lib : CryptoLibrary) where
  open lib use {utf8, sha256_hexdigest, hkdf, gcm_encrypt, gcm_decrypt}

  unfoldable pub sha256_hex : String → String
  sha256_hex text = sha256_hexdigest (utf8 text)

  unfoldable pub hash_password : String → String → String
  unfolding sha256_hex
  hash_password plain_password salt = sha256_hex (salt ++ sha256_hex plain_password)

  unfoldable pub verify_password : String → String → String → Bool
  verify_password plain_password salt stored_hash =
      str_eq (hash_password plain_password salt) stored_hash

  unfoldable pub derive_temp_key : String → String → String → Bytes
  derive_temp_key password_sha256_hex random_hex salt =
      hkdf (some (utf8 salt)) "iotmx-temp-key-v2" (utf8 (password_sha256_hex ++ random_hex))

  unfoldable pub derive_session_key : String → String → Bytes
  derive_session_key random2 random3 = hkdf none "iotmx-session-key-v2" (utf8 (random2 ++ random3))

  -- The nonce, which `os.urandom(12)` draws where none is given, is an argument; `none` is the
  -- ValueError of a key that AES does not take.
  unfoldable pub aes_encrypt : Bytes → Bytes → Bytes → Option Bytes
  aes_encrypt plaintext key iv = gcm_encrypt key iv plaintext

  -- `none` is InvalidTag, or a ValueError.
  unfoldable pub aes_decrypt : Bytes → Bytes → Bytes → Option Bytes
  aes_decrypt ciphertext key iv = gcm_decrypt key iv ciphertext
