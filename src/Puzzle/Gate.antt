-- ===== src/Puzzle/Gate.antt =====
-- `CryptoManager.authenticate` of app/shared/middleware/auth/devices/auth.py and applications/auth.py, for
-- a device or an application, over the session service.
use iot_server.Prelude.{
  ℕ, ◌≡◌, refl, String, Bool, true, false, Option, none, some, List, [], ◌∷◌, str_eq, not,
  if◌then◌else◌, Bool-cases, Option-cases, inl, inr,
}
use iot_server.Http.{Exec, Result, ok, err, python, continue}
use iot_server.Puzzle.{Bytes, PuzzleLibrary, PuzzlePayload, Outcome, valid, invalid, verify}

-- A row of device or application; its key is `encryption_key` or `api_key`.
pub record Entity : Type 0 where
  pub id : String
  pub name : String
  pub is_active : Bool
  pub key : Option String

pub record Claims : Type 0 where
  pub sub : String
  pub type : String
  pub name : String

-- What is used of `SessionService`: whether the id has a user session, and a new session with its tokens.
pub record Sessions (S Tokens : Type 0) : Type 0 where
  pub get_session : String → Exec S Bool
  pub create_session_with_tokens : String → Claims → Exec S Tokens

pub data Answer (Tokens : Type 0) : Type 0 where
  opened : Tokens → Answer Tokens
  refused : Answer Tokens

unfoldable pub get_entity : String → List Entity → Option Entity
get_entity id [] = none
get_entity id (e ∷ es) = if str_eq e.id id then some e else get_entity id es

module _ (lib : PuzzleLibrary) (server_key : Bytes) {S Tokens : Type 0}
    (sessions : Sessions S Tokens) (kind : String) (now : ℕ) (puzzle : PuzzlePayload) where
  -- `_get_device_key`: no key, or a key that is empty, is refused; one that is no hexadecimal text raises.
  unfoldable pub key_bytes : Option Bytes → Result (Option Bytes)
  key_bytes none = err (python "ValueError")
  key_bytes (some []) = ok none
  key_bytes (some (b ∷ bs)) = ok (some (b ∷ bs))

  unfoldable pub get_key : Option String → Result (Option Bytes)
  unfolding key_bytes
  get_key none = ok none
  get_key (some k) = if str_eq k "" then ok none else key_bytes (lib.from_hex k)

  abbrev pub claims_of : Entity → Claims
  claims_of e = record { sub = e.id; type = kind; name = e.name }

  unfoldable pub open_if : Entity → Outcome → Exec S (Answer Tokens)
  open_if e (invalid why) s = (ok refused, s)
  open_if e valid s =
      continue (λ t s'. (ok (opened t), s'))
        (sessions.create_session_with_tokens e.id (claims_of e) s)

  unfoldable pub with_key : Entity → Result (Option Bytes) → Exec S (Answer Tokens)
  unfolding open_if verify
  with_key e (err x) s = (err x, s)
  with_key e (ok none) s = (ok refused, s)
  with_key e (ok (some key)) s = open_if e (verify lib server_key key puzzle now) s

  unfoldable pub after_lookup : Entity → Bool → Exec S (Answer Tokens)
  unfolding with_key get_key
  after_lookup e busy s = if busy then (ok refused, s) else with_key e (get_key e.key) s

  unfoldable pub authenticate_found : Option Entity → Exec S (Answer Tokens)
  unfolding after_lookup
  authenticate_found none s = (ok refused, s)
  authenticate_found (some e) s =
      if not e.is_active
      then (ok refused, s)
      else continue (after_lookup e) (sessions.get_session e.id s)

  unfoldable pub authenticate : String → List Entity → Exec S (Answer Tokens)
  unfolding authenticate_found get_entity
  authenticate id entities s = authenticate_found (get_entity id entities) s

  -- What a session was opened on: an active row with the id, no session of it, and a key under which the
  -- puzzle is valid.
  pub record Opened (id : String) (entities : List Entity) (s : S) (t : Tokens) (s' : S)
      : Type 0 where
    pub entity : Entity
    pub key : Bytes
    pub looked : S
    pub found : get_entity id entities ≡ some entity
    pub active : entity.is_active ≡ true
    pub free : sessions.get_session entity.id s ≡ (ok false, looked)
    pub has_key : get_key entity.key ≡ ok (some key)
    pub solved : verify lib server_key key puzzle now ≡ valid
    pub made : sessions.create_session_with_tokens entity.id (claims_of entity) looked ≡ (ok t, s')

  continue-opened :
      (r : Result Tokens × S) {t : Tokens} {s' : S}
      → continue (λ t s'. (ok (opened t), s')) r ≡ (ok (opened t), s')
      → r ≡ (ok t, s')
  continue-opened (ok a, s) h = cc
  continue-opened (err e, s) h = cc

  opened_found :
      (id : String) (entities : List Entity) (e : Entity) (s : S) (r : Result Bool × S) {t : Tokens}
      {s' : S}
      → get_entity id entities ≡ some e
      → e.is_active ≡ true
      → sessions.get_session e.id s ≡ r
      → continue (after_lookup e) r ≡ (ok (opened t), s')
      → Opened id entities s t s'
  opened_found id entities e s (err x, looked) f a g h = cc
  opened_found id entities e s (ok true, looked) f a g h = unfold after_lookup in cc
  opened_found id entities e s (ok false, looked) {t} {s'} f a g h =
      by_key (get_key e.key) refl (unfold after_lookup in h)
    where
      by_outcome :
          (key : Bytes) (o : Outcome)
          → get_key e.key ≡ ok (some key)
          → verify lib server_key key puzzle now ≡ o
          → open_if e o looked ≡ (ok (opened t), s')
          → Opened id entities s t s'
      by_outcome key (invalid why) k v h = unfold open_if in cc
      by_outcome key valid k v h = record {
        entity = e;
        key = key;
        looked = looked;
        found = f;
        active = a;
        free = g;
        has_key = k;
        solved = v;
        made = continue-opened _ (unfold open_if in h);
      }

      by_key :
          (k : Result (Option Bytes))
          → get_key e.key ≡ k
          → with_key e k looked ≡ (ok (opened t), s')
          → Opened id entities s t s'
      by_key (err x) k h = unfold with_key in cc
      by_key (ok none) k h = unfold with_key in cc
      by_key (ok (some key)) k h = by_outcome key _ k refl (unfold with_key in h)

  -- A device or an application is given a session only if its row exists and is active, it has no session
  -- yet, and the puzzle is valid under its key.
  pub authenticate-Opened :
      (id : String) (entities : List Entity) (s : S) {t : Tokens} {s' : S}
      → authenticate id entities s ≡ (ok (opened t), s')
      → Opened id entities s t s'
  unfolding authenticate authenticate_found
  authenticate-Opened id entities s {t} {s'} h = elim (Option-cases (get_entity id entities)) [
    | inl none_ ↦ let bad : (ok refused, s) ≡ (ok (opened t), s') = rw none_ at h in cc
    | inr (e, some_) ↦ elim (Bool-cases e.is_active) [
      | inl yes_ ↦
          opened_found id entities e s (sessions.get_session e.id s) some_ yes_ refl
            (rw (some_, yes_) at h)
      | inr no_ ↦ let bad : (ok refused, s) ≡ (ok (opened t), s') = rw (some_, no_) at h in cc
    ]
  ]

module _ (lib : PuzzleLibrary) (server_key : Bytes) {S Tokens : Type 0}
    (sessions : Sessions S Tokens) (now : ℕ) (puzzle : PuzzlePayload) where
  -- `CryptoManager` of devices/auth.py.
  unfoldable pub authenticate_device : String → List Entity → Exec S (Answer Tokens)
  unfolding authenticate
  authenticate_device = authenticate lib server_key sessions "device" now puzzle

  -- `CryptoManager` of applications/auth.py.
  unfoldable pub authenticate_application : String → List Entity → Exec S (Answer Tokens)
  unfolding authenticate
  authenticate_application = authenticate lib server_key sessions "application" now puzzle
