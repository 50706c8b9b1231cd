-- ===== src/Puzzle/Manager.antt =====
-- `AuthManager.authenticate` of app/shared/middleware/auth/auth_manager/manager.py.
use iot_server.Prelude.{
  ◌≡◌, ◌∙◌, ap, String, Bool, true, false, Option, none, some, List, [], ◌∷◌, str_eq, not,
  if◌then◌else◌,
}
use iot_server.Http.{Exec, Result, ok, err, python, continue}
use iot_server.Puzzle.{Outcome, valid, invalid, failed}
use iot_server.Puzzle.Gate.{Entity, Sessions, get_entity}

-- AUTH_TYPE_ALIASES
unfoldable pub normalize_auth_type : String → String
normalize_auth_type auth_type =
    if str_eq auth_type "auth_rc"
    then "rc"
    else (if str_eq auth_type "auth_xmss" then "xmss" else auth_type)

unfoldable pub method_of {ℓ} : {M : Type ℓ} → String → List (String × M) → Result M
method_of name [] = err (python "ValueError")
method_of name ((key, m) ∷ rest) = if str_eq key name then ok m else method_of name rest

-- `_resolve_auth_type`
unfoldable pub resolve_auth_type {ℓ} : {M : Type ℓ} → List (String × M) → String → Result M
unfolding normalize_auth_type method_of
resolve_auth_type methods auth_type = method_of (normalize_auth_type auth_type) methods

module _ {S Tokens R : Type 0} (sessions : Sessions S Tokens) (method : Entity → R → Outcome) where
  -- `create_entity_session` has no parameters `ip` and `user_agent`: the call raises before it does
  -- anything.
  unfoldable pub create_session : Exec S Outcome
  create_session s = (err (python "TypeError"), s)

  unfoldable pub finish : Outcome → Exec S Outcome
  unfolding create_session
  finish (invalid why) s = (ok (invalid why), s)
  finish valid s = create_session s

  unfoldable pub after_lookup : Entity → R → Bool → Exec S Outcome
  unfolding finish
  after_lookup e request busy s = if busy then (ok failed, s) else finish (method e request) s

  unfoldable pub authenticate_found : Option Entity → R → Exec S Outcome
  unfolding after_lookup
  authenticate_found none request s = (ok failed, s)
  authenticate_found (some e) request s =
      if not e.is_active
      then (ok failed, s)
      else continue (after_lookup e request) (sessions.get_session e.id s)

  unfoldable pub authenticate : String → List Entity → R → Exec S Outcome
  unfolding authenticate_found get_entity
  authenticate id entities request s = authenticate_found (get_entity id entities) request s

  -- An active entity without a session whose proof is valid is answered by a TypeError, and no session is
  -- made.
  pub authenticate_broken :
      (id : String) (entities : List Entity) (request : R) (e : Entity) (s looked : S)
      → get_entity id entities ≡ some e
      → e.is_active ≡ true
      → sessions.get_session e.id s ≡ (ok false, looked)
      → method e request ≡ valid
      → authenticate id entities request s ≡ (err (python "TypeError"), looked)
  unfolding authenticate authenticate_found after_lookup finish create_session
  authenticate_broken id entities request e s looked found active free proof =
      ap (λ o. authenticate_found o request s) found
      ∙ (ap
            (λ b.
              if not b
              then (ok failed, s)
              else continue (after_lookup e request) (sessions.get_session e.id s))
            active
          ∙ (ap (continue (after_lookup e request)) free ∙ ap (λ o. finish o looked) proof))
