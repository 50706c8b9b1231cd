-- ===== src/Xmss.antt =====
-- app/shared/middleware/auth/auth_xmss/challenge.py: the XMSS hash tree and the check of a signature.
pub mod Tree
pub mod Halt
pub mod Path
pub mod Verify
pub mod Adapters
pub mod Forgery
use Prim.Native.String.{◌++◌}
use iot_server.Prelude.{
  ℕ, zero, suc, ◌+◌, ◌^◌, ◌≡◌, String, Bool, true, false, Option, none, some, List, [], ◌∷◌, map,
  str_eq, ltb, ◌&&◌, ◌||◌, not, if◌then◌else◌,
}
use iot_server.Prelude.Lists.{length}

-- What the code takes from Python: SHA-256 in hexadecimal, `str(index)`, and `strip`, `lower` and
-- `replace("0x", "")`, none of which changes a lower-case hexadecimal text.
pub record Python : Type 0 where
  pub sha256_hex : String → String
  pub str : ℕ → String
  pub strip : String → String
  pub lower : String → String
  pub drop_0x : String → String
  pub hex-nonempty : (s : String) → str_eq (sha256_hex s) "" ≡ false
  pub strip-hex : (s : String) → strip (sha256_hex s) ≡ sha256_hex s
  pub lower-hex : (s : String) → lower (sha256_hex s) ≡ sha256_hex s
  pub drop_0x-hex : (s : String) → drop_0x (sha256_hex s) ≡ sha256_hex s

pub data Position : Type 0 where
  left : Position
  right : Position

pub record AuthPathNode : Type 0 where
  pub position : Position
  pub value : String

-- A value of a JSON object with texts and whole numbers.
pub data Scalar : Type 0 where
  text : String → Scalar
  number : ℕ → Scalar

abbrev pub Message : Type 0
Message = List (String × Scalar)

pub record Payload : Type 0 where
  pub entity_type : String
  pub identifier : String
  pub challenge : String
  pub leaf_index : ℕ
  pub message : Message
  pub ots_public_key : Option String
  -- `signature.get("ots_public_key")`, if that is a text
  pub signature_ots_public_key : Option String
  pub auth_path : List AuthPathNode

module _ (py : Python) where
  unfoldable pub hash_hex : String → String
  hash_hex value = py.sha256_hex value

  unfoldable pub normalize : String → String
  normalize value = py.drop_0x (py.lower (py.strip value))

  unfoldable pub ots_public_key : String → ℕ → String
  ots_public_key sk_seed index = hash_hex ("WOTS+|" ++ sk_seed ++ "|" ++ py.str index)

  unfoldable pub leaf_from_ots_public_key : String → String
  leaf_from_ots_public_key key = hash_hex ("L_TREE|" ++ normalize key)

  unfoldable pub leaves_from : String → ℕ → ℕ → List String
  leaves_from sk_seed start zero = []
  leaves_from sk_seed start (suc n) =
      leaf_from_ots_public_key (ots_public_key sk_seed start) ∷ leaves_from sk_seed (suc start) n

  -- The pairs of `batched(current, 2)`; a last single node is paired with itself.
  unfoldable pub next_level : List String → List String
  next_level [] = []
  next_level (a ∷ []) = hash_hex (a ++ a) ∷ []
  next_level (a ∷ b ∷ rest) = hash_hex (a ++ b) ∷ next_level rest

  -- The `while` loop, on fuel.
  unfoldable pub levels : ℕ → List String → List (List String)
  levels zero current = current ∷ []
  levels (suc fuel) current =
      let rest = levels fuel (next_level current) in
      if ltb 1 (length current) then current ∷ rest else current ∷ []

  unfoldable pub build_tree : String → ℕ → List (List String)
  unfolding levels leaves_from
  build_tree sk_seed height = levels (2 ^ height) (leaves_from sk_seed 0 (2 ^ height))

  unfoldable pub last_level : List (List String) → List String
  last_level [] = []
  last_level (l ∷ []) = l
  last_level (l ∷ m ∷ ls) = last_level (m ∷ ls)

  unfoldable pub first_node : List String → Option String
  first_node [] = none
  first_node (a ∷ rest) = some a

  -- `tree[-1][0]`
  unfoldable pub public_root : String → ℕ → Option String
  public_root sk_seed height = first_node (last_level (build_tree sk_seed height))

  unfoldable pub combine : Position → String → String → String
  combine left sibling current = hash_hex (sibling ++ current)
  combine right sibling current = hash_hex (current ++ sibling)

  unfoldable pub climb : String → List AuthPathNode → String
  unfolding combine
  climb current [] = current
  climb current (n ∷ ns) = climb (combine n.position (normalize n.value) current) ns

  unfoldable pub reconstruct_root : String → List AuthPathNode → String
  unfolding climb
  reconstruct_root key auth_path = climb (leaf_from_ots_public_key key) auth_path

  unfoldable pub build_canonical_message : String → String → String → ℕ → Message
  build_canonical_message entity_type identifier challenge leaf_index =
      ("auth_method", text "auth_xmss")
      ∷ ("entity_type", text entity_type)
      ∷ ("identifier", text identifier)
      ∷ ("challenge", text challenge)
      ∷ ("leaf_index", number leaf_index)
      ∷ []

  unfoldable pub given_key : Option String → Option String → Option String
  given_key none other = other
  given_key (some k) other = if str_eq k "" then other else some k

  unfoldable pub extract_ots_public_key : Payload → Option String
  unfolding given_key
  extract_ots_public_key p = given_key p.ots_public_key p.signature_ots_public_key

  unfoldable pub verify_root : Option String → List AuthPathNode → String → Bool
  verify_root none auth_path root = false
  verify_root (some k) auth_path root =
      if str_eq k "" then false else str_eq (reconstruct_root k auth_path) (normalize root)

  -- `json_bytes` is `json.dumps` with sorted keys.
  unfoldable pub verify_payload : (Message → String) → Payload → String → Bool
  unfolding verify_root
  verify_payload json_bytes p root =
      if str_eq (json_bytes p.message)
        (json_bytes (build_canonical_message p.entity_type p.identifier p.challenge p.leaf_index))
      then verify_root (extract_ots_public_key p) p.auth_path root
      else false
