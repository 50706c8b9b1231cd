-- ===== src/Xmss/Verify.antt =====
-- Which signatures `verify_payload` of auth_xmss/challenge.py accepts.
use Prim.Native.String.{◌++◌}
use iot_server.Prelude.{
  ℕ, ◌^◌, ◌<◌, ◌≡◌, refl, sym, ap, ◌∙◌, String, true, false, Option, none, some, List, [], ◌∷◌,
  str_eq, eq_refl, eq_iff, Bool-cases, inl, inr,
}
use iot_server.Xmss.{
  Python, Position, left, right, AuthPathNode, Message, Payload, hash_hex, normalize, combine,
  climb, reconstruct_root, public_root, leaves_from, leaf_from_ots_public_key, ots_public_key,
  build_canonical_message, extract_ots_public_key, given_key, verify_root, verify_payload,
}
use iot_server.Xmss.Tree.{normalize-hash}
use iot_server.Xmss.Path.{auth_path, reconstruct-root}

module _ (py : Python) where
  normalize-combine :
      (p : Position) (a b : String) → normalize py (combine py p a b) ≡ combine py p a b
  unfolding combine
  normalize-combine left a b = normalize-hash py (a ++ b)
  normalize-combine right a b = normalize-hash py (b ++ a)

  normalize-climb :
      (current : String) (ns : List AuthPathNode)
      → normalize py current ≡ current
      → normalize py (climb py current ns) ≡ climb py current ns
  unfolding climb
  normalize-climb current [] e = e
  normalize-climb current (n ∷ ns) e =
      normalize-climb (combine py n.position (normalize py n.value) current) ns
        (normalize-combine n.position (normalize py n.value) current)

  -- A reconstructed root is its own normal form.
  pub normalize-reconstruct_root :
      (k : String) (ns : List AuthPathNode)
      → normalize py (reconstruct_root py k ns) ≡ reconstruct_root py k ns
  unfolding reconstruct_root leaf_from_ots_public_key
  normalize-reconstruct_root k ns =
      normalize-climb _ ns (normalize-hash py ("L_TREE|" ++ normalize py k))

  -- The message that a client signs for a challenge, with the one-time key of a leaf and its path.
  pub honest : String → ℕ → String → String → String → ℕ → Payload
  honest seed height entity_type identifier challenge index = record {
    entity_type = entity_type;
    identifier = identifier;
    challenge = challenge;
    leaf_index = index;
    message = build_canonical_message py entity_type identifier challenge index;
    ots_public_key = some (ots_public_key py seed index);
    signature_ots_public_key = none;
    auth_path = auth_path py height (leaves_from py seed 0 (2 ^ height)) index;
  }

  key-nonempty : (seed : String) (index : ℕ) → str_eq (ots_public_key py seed index) "" ≡ false
  unfolding ots_public_key hash_hex
  key-nonempty seed index = py.hex-nonempty _

  matching-root :
      (seed : String) (height index : ℕ) (root : String)
      → index < 2 ^ height
      → public_root py seed height ≡ some root
      → str_eq
          (reconstruct_root py
            (ots_public_key py seed index)
            (auth_path py height (leaves_from py seed 0 (2 ^ height)) index))
          (normalize py root)
        ≡ true
  matching-root seed height index root lt e =
      let r =
        reconstruct_root py (ots_public_key py seed index)
          (auth_path py height (leaves_from py seed 0 (2 ^ height)) index) in
      let same : some r ≡ some root = sym (reconstruct-root py seed height index lt) ∙ e in
      let same' : r ≡ root = cc in
      (eq_iff r (normalize py root)).1
        (sym (normalize-reconstruct_root _ _) ∙ ap (normalize py) same')

  -- Every leaf of a tree is accepted: the honest payload of a leaf verifies against the tree's public
  -- root.
  pub verify-honest :
      (json_bytes : Message → String) (seed : String) (height index : ℕ)
      (entity_type identifier challenge root : String)
      → index < 2 ^ height
      → public_root py seed height ≡ some root
      → verify_payload py json_bytes
          (honest seed height entity_type identifier challenge index)
          root
        ≡ true
  unfolding verify_payload verify_root extract_ots_public_key given_key honest
  verify-honest json_bytes seed height index entity_type identifier challenge root lt e =
      rw (eq_refl (json_bytes (build_canonical_message py entity_type identifier challenge index)))
        (rw (key-nonempty seed index)
          (rw (key-nonempty seed index) (matching-root seed height index root lt e)))

  verify_root_sound :
      (o : Option String) (ns : List AuthPathNode) (root : String)
      → verify_root py o ns root ≡ true
      → (k : String) × (o ≡ some k) × (reconstruct_root py k ns ≡ normalize py root)
  unfolding verify_root
  verify_root_sound none ns root e = cc
  verify_root_sound (some k) ns root e = elim (Bool-cases (str_eq k "")) [
    | inl empty ↦ let bad : false ≡ true = rw empty at e in cc
    | inr no_ ↦ (k, refl, (eq_iff _ _).0 (rw no_ at e))
  ]

  -- A payload is accepted only if its message is the canonical one for its own fields, and the root
  -- that its key and path lead to is the registered root.
  pub verify_sound :
      (json_bytes : Message → String) (p : Payload) (root : String)
      → verify_payload py json_bytes p root ≡ true
      → (json_bytes p.message
          ≡ json_bytes
              (build_canonical_message py p.entity_type p.identifier p.challenge p.leaf_index))
        × ((k : String) × (extract_ots_public_key py p ≡ some k)
            × (reconstruct_root py k p.auth_path ≡ normalize py root))
  unfolding verify_payload
  verify_sound json_bytes p root e =
      elim (Bool-cases (
        str_eq (json_bytes p.message) (
          json_bytes
            (build_canonical_message py p.entity_type p.identifier p.challenge p.leaf_index)))) [
              | inl same ↦ (
                (eq_iff _ _).0 same,
                verify_root_sound (extract_ots_public_key py p) p.auth_path root (rw same at e),
              )
              | inr differ ↦ let bad : false ≡ true = rw differ at e in cc
            ]
