-- ===== src/Puzzle.antt =====
-- The cryptographic puzzle of devices and applications: app/shared/middleware/auth/auth_rc/*.py, the two
-- `CryptoManager`s in devices/auth.py and applications/auth.py, and `AuthManager` of auth_manager/.
-- Clocks count whole seconds.
pub mod Verified
pub mod Manager
pub mod Gate
pub mod Human
use iot_server.Prelude.{
  ℕ, zero, suc, ◌+◌, ◌-◌, ◌*◌, ◌/◌, ◌%◌, ◌^◌, ◌≡◌, String, Bool, true, false, Option, none, some,
  List, [], ◌∷◌, ◌++◌, str_eq, ltb, leb, ◌==◌, ◌&&◌, ◌||◌, not, if◌then◌else◌,
}
use iot_server.Prelude.Lists.{length, take, drop}

abbrev pub Bytes : Type 0
Bytes = List ℕ

-- `base64`, AES-CBC with the PKCS7 unpadder of `cryptography`, HMAC-SHA256, SHA-256, `bytes.fromhex` and
-- `str.strip`. Tags have 32 bytes; `none` is any exception of the library.
pub record PuzzleLibrary : Type 0 where
  pub utf8 : String → Bytes
  pub strip : String → String
  pub from_hex : String → Option Bytes
  pub sha256 : Bytes → Bytes
  pub hmac_sha256 : Bytes → Bytes → Bytes
  pub b64decode : String → Option Bytes
  pub cbc_decrypt_unpad : Bytes → Bytes → Bytes → Option Bytes
  pub hmac-length : (key msg : Bytes) → length (hmac_sha256 key msg) ≡ 32

pub record PuzzlePayload : Type 0 where
  pub ciphertext : String
  pub iv : String

-- `{"valid": True}`, or `{"valid": False, "error": …}`.
pub data Outcome : Type 0 where
  valid : Outcome
  invalid : String → Outcome

abbrev pub failed : Outcome
failed = invalid "Authentication failed"

abbrev pub timestamp_window : ℕ
timestamp_window = 60

-- `int.from_bytes(…, byteorder="big")`
unfoldable pub from_bytes : ℕ → Bytes → ℕ
from_bytes acc [] = acc
from_bytes acc (b ∷ bs) = from_bytes (acc * 256 + b) bs

-- `abs(a - b)`
unfoldable pub distance : ℕ → ℕ → ℕ
distance a b = if leb a b then b - a else a - b

unfoldable pub same_bytes : Bytes → Bytes → Bool
same_bytes [] [] = true
same_bytes [] (b ∷ bs) = false
same_bytes (a ∷ as_) [] = false
same_bytes (a ∷ as_) (b ∷ bs) = a == b && same_bytes as_ bs

module _ (lib : PuzzleLibrary) (server_key : Bytes) where
  unfoldable pub decrypt_parts : Bytes → Option Bytes → Option Bytes → Option Bytes
  decrypt_parts key none iv = none
  decrypt_parts key (some ciphertext) none = none
  decrypt_parts key (some ciphertext) (some iv) = lib.cbc_decrypt_unpad key iv ciphertext

  -- `_decrypt_payload`
  unfoldable pub decrypt_payload : PuzzlePayload → Bytes → Option Bytes
  unfolding decrypt_parts
  decrypt_payload p key = decrypt_parts key (lib.b64decode p.ciphertext) (lib.b64decode p.iv)

  -- P2 for the random R2 and the bytes of the time.
  unfoldable pub p2_of : Bytes → Bytes → Bytes
  p2_of key message = lib.hmac_sha256 (key ++ server_key) message

  -- Steps 2 to 5 of `verify`: P2 has 32 bytes, R2 has 32 and the time has 8.
  unfoldable pub check_decrypted : Bytes → ℕ → Bytes → Outcome
  unfolding p2_of from_bytes distance same_bytes
  check_decrypted key now decrypted =
      let p2_received = take 32 decrypted in
      let r2 = take 32 (drop 32 decrypted) in
      let timestamp_bytes = take 8 (drop 64 decrypted) in
      if ltb (length decrypted) 72
      then failed
      else (if ltb timestamp_window (distance (from_bytes 0 timestamp_bytes) now)
          then failed
          else (if same_bytes p2_received (p2_of key (r2 ++ timestamp_bytes))
              then valid
              else failed))

  unfoldable pub check_if : Bytes → ℕ → Option Bytes → Outcome
  unfolding check_decrypted
  check_if key now none = failed
  check_if key now (some decrypted) = check_decrypted key now decrypted

  -- `PuzzleVerifier.verify`
  unfoldable pub verify : Bytes → PuzzlePayload → ℕ → Outcome
  unfolding check_if decrypt_payload
  verify key puzzle now = check_if key now (decrypt_payload puzzle key)

  unfoldable pub raw_key : Option Bytes → String → Bytes
  raw_key none value = lib.sha256 (lib.utf8 value)
  raw_key (some raw) value = if length raw == 32 then raw else lib.sha256 (lib.utf8 value)

  -- `_normalize_key`
  unfoldable pub normalize_key : String → Bytes
  unfolding raw_key
  normalize_key given = let value = lib.strip given in raw_key (lib.from_hex value) value

  -- `DeviceAuth.authenticate` and `ApplicationAuth.authenticate`: the key of the entity, which a device
  -- may not have, and which counts as missing if it is empty.
  unfoldable pub authenticate_rc : Option String → PuzzlePayload → ℕ → Outcome
  unfolding normalize_key verify
  authenticate_rc none puzzle now = failed
  authenticate_rc (some key) puzzle now =
      if str_eq key "" then failed else verify (normalize_key key) puzzle now

-- `server_key` of the constructors.
unfoldable pub server_key_of : PuzzleLibrary → String → Bytes
server_key_of lib secret_key =
    lib.sha256 (lib.utf8 (Prim.Native.String.◌++◌ secret_key "|puzzle_v1"))
