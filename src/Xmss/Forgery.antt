-- ===== src/Xmss/Forgery.antt =====
-- The methods of auth_xmss/device.py, application.py and human.py on challenges of
-- auth_xmss/challenge.py.
use iot_server.Prelude.{
  ℕ, ◌^◌, ◌<◌, ◌≡◌, refl, String, Bool, true, false, Option, none, some, List, [], ◌∷◌, str_eq,
  eq_refl, Bool-cases, inl, inr,
}
use iot_server.Http.{ok}
use iot_server.Puzzle.{valid, invalid}
use iot_server.Xmss.{
  Python, Position, left, right, AuthPathNode, Message, Payload, hash_hex, normalize, combine,
  climb, reconstruct_root, leaves_from, leaf_from_ots_public_key, ots_public_key,
  build_canonical_message, extract_ots_public_key, verify_payload,
}
use iot_server.Xmss.Path.{auth_path, reconstruct-root}
use iot_server.Xmss.Verify.{honest, verify-honest}
use iot_server.Xmss.Adapters.{
  Drawn, Challenge, create_challenge, generated, challenge_with, client_material, is_inactive,
  verified, with_root, by_root, authenticate_device,
}

module _ (py : Python) where
  combine-nonempty : (p : Position) (a b : String) → str_eq (combine py p a b) "" ≡ false
  unfolding combine hash_hex
  combine-nonempty left a b = py.hex-nonempty _
  combine-nonempty right a b = py.hex-nonempty _

  climb-nonempty :
      (current : String) (ns : List AuthPathNode)
      → str_eq current "" ≡ false
      → str_eq (climb py current ns) "" ≡ false
  unfolding climb
  climb-nonempty current [] e = e
  climb-nonempty current (n ∷ ns) e =
      climb-nonempty (combine py n.position (normalize py n.value) current) ns
        (combine-nonempty n.position (normalize py n.value) current)

  root-nonempty :
      (k : String) (ns : List AuthPathNode) → str_eq (reconstruct_root py k ns) "" ≡ false
  unfolding reconstruct_root leaf_from_ots_public_key hash_hex
  root-nonempty k ns = climb-nonempty _ ns (py.hex-nonempty _)

  accepted_with :
      (json_bytes : Message → String) (why : String) (p : Payload) (root : String)
      → str_eq root "" ≡ false
      → verify_payload py json_bytes p root ≡ true
      → by_root py json_bytes why (some true) (some p) (some root) ≡ ok valid
  unfolding by_root with_root verified is_inactive
  accepted_with json_bytes why p root full good = rw full (rw good refl)

  -- A challenge for a leaf of a new tree is always made, and the device that holds its material and signs the
  -- challenge with that leaf is authenticated against the root of the challenge.
  pub create_challenge-authenticate_device :
      (json_bytes : Message → String) (ttl now : ℕ) (drawn : Drawn) (identifier : String)
      (leaf_index tree_height : ℕ)
      → leaf_index < 2 ^ tree_height
      → (c : Challenge) × (create_challenge py ttl now drawn "device" identifier leaf_index
            tree_height none
          ≡ ok c)
        × (authenticate_device py json_bytes true (record {
          payload =
              some (honest py drawn.sk_seed tree_height "device" identifier c.challenge leaf_index);
          public_root = some c.public_root;
        })
            ≡ ok valid)
  unfolding create_challenge generated challenge_with authenticate_device
  create_challenge-authenticate_device json_bytes ttl now drawn identifier i h lt =
      let root =
        reconstruct_root py (ots_public_key py drawn.sk_seed i)
          (auth_path py h (leaves_from py drawn.sk_seed 0 (2 ^ h)) i) in
      let made = reconstruct-root py drawn.sk_seed h i lt in
      (
        challenge_with py ttl now drawn "device" identifier i h root
            (some (client_material py ttl now drawn "device" identifier i h)),
        rw made refl,
        accepted_with json_bytes "Device is inactive" _ root (root-nonempty _ _) (
            verify-honest py json_bytes drawn.sk_seed h i "device" identifier drawn.challenge root
              lt made),
      )

  -- The payload with the message for another challenge, identifier and leaf, and with the key and the path
  -- left as they were.
  pub forged : Payload → String → String → ℕ → Payload
  forged p identifier challenge leaf_index = record {
    entity_type = p.entity_type;
    identifier = identifier;
    challenge = challenge;
    leaf_index = leaf_index;
    message = build_canonical_message py p.entity_type identifier challenge leaf_index;
    ots_public_key = p.ots_public_key;
    signature_ots_public_key = p.signature_ots_public_key;
    auth_path = p.auth_path;
  }

  module _ (json_bytes : Message → String) where
    verified-valid :
        (p : Payload) (root : String)
        → verified py json_bytes (some p) root ≡ ok valid
        → verify_payload py json_bytes p root ≡ true
    unfolding verified
    verified-valid p root h = elim (Bool-cases (verify_payload py json_bytes p root)) [
      | inl good ↦ good
      | inr bad ↦ let same : ok (invalid "Invalid XMSS signature") ≡ ok valid = rw bad at h in cc
    ]

    with_root-valid :
        (why : String) (active : Option Bool) (p : Payload) (root : String)
        → with_root py json_bytes why active (some p) root ≡ ok valid
        → (str_eq root "" ≡ false)
          × (is_inactive active ≡ false)
          × (verify_payload py json_bytes p root ≡ true)
    unfolding with_root
    with_root-valid why active p root h = elim (Bool-cases (str_eq root "")) [
      | inl empty ↦
          let same : ok (invalid "XMSS root is not configured") ≡ ok valid = rw empty at h in cc
      | inr full ↦ elim (Bool-cases (is_inactive active)) [
        | inl off ↦ let same : ok (invalid why) ≡ ok valid = rw (full, off) at h in cc
        | inr on ↦ (full, on, verified-valid p root (rw (full, on) at h))
      ]
    ]

    verify_payload-forged :
        (p : Payload) (identifier challenge root : String) (leaf_index : ℕ)
        → verify_payload py json_bytes p root ≡ true
        → verify_payload py json_bytes (forged p identifier challenge leaf_index) root ≡ true
    unfolding verify_payload extract_ots_public_key forged
    verify_payload-forged p identifier challenge root i h =
        elim (Bool-cases (
          str_eq (json_bytes p.message) (
            json_bytes
              (build_canonical_message py p.entity_type p.identifier p.challenge p.leaf_index)))) [
                | inl same ↦
                    rw
                      (eq_refl (
                        json_bytes
                          (build_canonical_message py p.entity_type identifier challenge i)))
                      (rw same at h)
                | inr differ ↦ let bad : false ≡ true = rw differ at h in cc
              ]

    with_root-forged :
        (why : String) (active : Option Bool) (p : Payload) (identifier challenge root : String)
        (leaf_index : ℕ)
        → with_root py json_bytes why active (some p) root ≡ ok valid
        → with_root py json_bytes why active (some (forged p identifier challenge leaf_index)) root
          ≡ ok valid
    with_root-forged why active p identifier challenge root i h =
        let (full, on, good) = with_root-valid why active p root h in
        let good' = verify_payload-forged p identifier challenge root i good in
        unfold with_root verified in rw (full, on, good') refl

    -- A payload that a device was authenticated with authenticates it again when its message is replaced by
    -- that for any other challenge, identifier and leaf, with its key and its path as they were.
    pub authenticate_device-forged :
        (active : Bool) (p : Payload) (root : Option String) (identifier challenge : String)
        (leaf_index : ℕ)
        → authenticate_device py json_bytes active (record { payload = some p; public_root = root })
          ≡ ok valid
        → authenticate_device py json_bytes active (record {
          payload = some (forged p identifier challenge leaf_index);
          public_root = root;
        })
          ≡ ok valid
    unfolding authenticate_device by_root
    authenticate_device-forged active p none identifier challenge i h = h
    authenticate_device-forged active p (some root) identifier challenge i h =
        with_root-forged "Device is inactive" (some active) p identifier challenge root i h
