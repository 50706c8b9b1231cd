-- ===== src/Policy/Admin.antt =====
-- app/domain/policy/{schemas,service,controller}.py: the routes that change the rules.
use iot_server.Prelude.{
  ◌≡◌, String, Bool, true, List, [], ◌∷◌, str_eq, ◌&&◌, ◌||◌, not, if◌then◌else◌,
}
use iot_server.Http.{Exec, Exception, Result, ok, err, http, not_found, bad_request}
use iot_server.Policy.{Rule, Casbin, same, CurrentUser, require_permission}

-- What the schema takes from Python: whether "*" is in a text.
pub record Texts : Type 0 where
  pub has_star : String → Bool
  pub has_star-star : has_star "*" ≡ true

abbrev pub valid_action : String → Bool
valid_action a =
    str_eq a "read" || (str_eq a "write" || (str_eq a "delete" || str_eq a "administer"))

abbrev pub unprocessable : Exception
unprocessable = http 422 "Unprocessable Entity"

-- The checks of `PolicyRuleIn`.
unfoldable pub valid_payload : Texts → Rule → Bool
valid_payload t p = not (t.has_star p.sub) && (not (t.has_star p.obj) && valid_action p.act)

abbrev pub immutable : Rule
immutable = record { sub = "master_admin"; obj = "*"; act = "*" }

unfoldable pub with_role : String → List Rule → List Rule
with_role role [] = []
with_role role (p ∷ ps) =
    let rest = with_role role ps in if str_eq role p.sub then p ∷ rest else rest

unfoldable pub found_rules : List Rule → Result (List Rule)
found_rules [] = err (not_found "role")
found_rules (p ∷ ps) = ok (p ∷ ps)

-- What a route answers.
pub data Reply : Type 0 where
  rules : List Rule → Reply
  added : Rule → Reply
  removed : Reply

-- A request to the routes under /policies.
pub data Request : Type 0 where
  list_policies : Request
  get_role_policies : String → Request
  add_policy : Rule → Request
  remove_policy : Rule → Request

module _ (c : Casbin) where
  unfoldable pub list_all : c.Enforcer → List Rule
  list_all e = c.get_policy e

  unfoldable pub get_for_role : String → c.Enforcer → Result (List Rule)
  unfolding found_rules with_role
  get_for_role role e = found_rules (with_role role (c.get_policy e))

  unfoldable pub add_rule : Rule → c.Enforcer → c.Enforcer
  add_rule r e = if c.has_policy e r then e else c.add_policy r e

  unfoldable pub remove_rule : Rule → Exec c.Enforcer (Unit {0})
  unfolding same
  remove_rule r e =
      if same r immutable
      then (err (bad_request "The master_admin wildcard rule cannot be removed."), e)
      else (if c.has_policy e r
          then (ok tt, c.remove_policy r e)
          else (err (not_found "policy rule"), e))

  unfoldable pub as_reply : Result (List Rule) → Result Reply
  as_reply (ok ps) = ok (rules ps)
  as_reply (err x) = err x

  unfoldable pub as_removed : Result (Unit {0}) × c.Enforcer → Result Reply × c.Enforcer
  as_removed (ok u, e) = (ok removed, e)
  as_removed (err x, e) = (err x, e)

  -- A route behind the permission: the payload is checked before the handler runs.
  unfoldable pub route : Texts → Request → Exec c.Enforcer Reply
  unfolding as_reply as_removed
  route t list_policies e = (ok (rules (list_all e)), e)
  route t (get_role_policies role) e = (as_reply (get_for_role role e), e)
  route t (add_policy r) e =
      if valid_payload t r then (ok (added r), add_rule r e) else (err unprocessable, e)
  route t (remove_policy r) e = as_removed (remove_rule r e)

  unfoldable pub guarded : Texts → Request → Result CurrentUser → Exec c.Enforcer Reply
  guarded t q (err x) e = (err x, e)
  guarded t q (ok user) e = route t q e

  unfoldable pub handle : Texts → CurrentUser → Request → Exec c.Enforcer Reply
  unfolding guarded
  handle t user q e = guarded t q (require_permission c "administer" "_Policy" e user) e
