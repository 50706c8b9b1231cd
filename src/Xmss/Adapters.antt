-- ===== src/Xmss/Adapters.antt =====
-- `create_challenge` of auth_xmss/challenge.py, and the methods of auth_xmss/device.py, application.py and
-- human.py. The texts that `secrets` draws are arguments.
use iot_server.Prelude.{ℕ, ◌+◌, String, Bool, Option, none, some, str_eq, not, if◌then◌else◌}
use iot_server.Http.{Result, ok, err, python}
use iot_server.Puzzle.{Outcome, valid, invalid}
use iot_server.Xmss.{Python, Message, Payload, public_root, build_canonical_message, verify_payload}

pub record Drawn : Type 0 where
  pub challenge : String
  pub sk_seed : String
  pub pub_seed : String

-- `client_material_compact`, without its note.
pub record ClientMaterial : Type 0 where
  pub sk_seed : String
  pub pub_seed : String
  pub tree_height : ℕ
  pub leaf_index : ℕ

pub record Challenge : Type 0 where
  pub entity_type : String
  pub identifier : String
  pub challenge : String
  pub leaf_index : ℕ
  pub expires_at : ℕ
  pub public_root : String
  pub canonical_message : Message
  pub client_material_compact : Option ClientMaterial

module _ (py : Python) (challenge_ttl_seconds now : ℕ) (drawn : Drawn)
    (entity_type identifier : String) (leaf_index tree_height : ℕ) where
  unfoldable pub challenge_with : String → Option ClientMaterial → Challenge
  challenge_with root material = record {
    entity_type = entity_type;
    identifier = identifier;
    challenge = drawn.challenge;
    leaf_index = leaf_index;
    expires_at = now + challenge_ttl_seconds;
    public_root = root;
    canonical_message =
        build_canonical_message py entity_type identifier drawn.challenge leaf_index;
    client_material_compact = material;
  }

  unfoldable pub client_material : ClientMaterial
  client_material = record {
    sk_seed = drawn.sk_seed;
    pub_seed = drawn.pub_seed;
    tree_height = tree_height;
    leaf_index = leaf_index;
  }

  unfoldable pub generated : Option String → Result Challenge
  unfolding challenge_with client_material
  generated none = err (python "IndexError")
  generated (some root) = ok (challenge_with root (some client_material))

  -- A root that is missing or empty is replaced by that of a new tree.
  unfoldable pub create_challenge : Option String → Result Challenge
  unfolding generated challenge_with
  create_challenge none = generated (public_root py drawn.sk_seed tree_height)
  create_challenge (some root) =
      if str_eq root ""
      then generated (public_root py drawn.sk_seed tree_height)
      else ok (challenge_with root none)

-- What the methods read from `request_data`.
pub record RequestData : Type 0 where
  pub payload : Option Payload
  pub public_root : Option String

-- `hasattr(entity, "is_active") and not entity.is_active`
unfoldable pub is_inactive : Option Bool → Bool
is_inactive none = Bool.false
is_inactive (some active) = not active

module _ (py : Python) (json_bytes : Message → String) where
  -- `None` has no attribute `entity_type`.
  unfoldable pub verified : Option Payload → String → Result Outcome
  unfolding verify_payload
  verified none root = err (python "AttributeError")
  verified (some p) root =
      if verify_payload py json_bytes p root
      then ok valid
      else ok (invalid "Invalid XMSS signature")

  unfoldable pub with_root : String → Option Bool → Option Payload → String → Result Outcome
  unfolding verified is_inactive
  with_root why active payload root =
      if str_eq root ""
      then ok (invalid "XMSS root is not configured")
      else (if is_inactive active then ok (invalid why) else verified payload root)

  unfoldable pub by_root : String → Option Bool → Option Payload → Option String → Result Outcome
  unfolding with_root
  by_root why active payload none = ok (invalid "XMSS root is not configured")
  by_root why active payload (some root) = with_root why active payload root

  -- `DeviceXMSSAuth.authenticate`
  unfoldable pub authenticate_device : Bool → RequestData → Result Outcome
  unfolding by_root
  authenticate_device active r = by_root "Device is inactive" (some active) r.payload r.public_root

  -- `ApplicationXMSSAuth.authenticate`
  unfoldable pub authenticate_application : Bool → RequestData → Result Outcome
  unfolding by_root
  authenticate_application active r =
      by_root "Application is inactive" (some active) r.payload r.public_root

  -- `HumanXMSSAuth.authenticate`
  unfoldable pub authenticate_human : Option Bool → RequestData → Result Outcome
  unfolding by_root
  authenticate_human active r = by_root "Account is inactive" active r.payload r.public_root
