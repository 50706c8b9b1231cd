-- ===== src/Policy.antt =====
-- app/shared/authorization/{enforcer,dependencies,models}.py and model.conf: the permission checks, on
-- a casbin enforcer that is a parameter.
pub mod Admin
pub mod Rules
pub mod Explicit
pub mod Changes
pub mod Seed
use iot_server.Prelude.{
  ◌≡◌, String, Bool, true, false, List, [], ◌∷◌, ◌++◌, str_eq, ◌&&◌, ◌||◌, not, if◌then◌else◌,
}
use iot_server.Http.{Exception, Result, ok, err, http}

-- A rule of the policy, and a request, which has the same three parts.
pub record Rule : Type 0 where
  pub sub : String
  pub obj : String
  pub act : String

unfoldable pub same : Rule → Rule → Bool
same p q = str_eq p.sub q.sub && (str_eq p.obj q.obj && str_eq p.act q.act)

unfoldable pub any : (Rule → Bool) → List Rule → Bool
any f [] = false
any f (p ∷ ps) = f p || any f ps

unfoldable pub remove_same : Rule → List Rule → List Rule
unfolding same
remove_same r [] = []
remove_same r (p ∷ ps) = if same r p then remove_same r ps else p ∷ remove_same r ps

-- casbin's enforcer with its database adapter: the rules that it holds, in their order, and what it
-- documents of its methods. A request is allowed when some rule matches (`policy_effect`), and `g` is
-- equality in an enforcer without rules of type g.
pub record Casbin : Type 1 where
  pub Enforcer : Type 0
  pub get_policy : Enforcer → List Rule
  pub has_policy : Enforcer → Rule → Bool
  pub add_policy : Rule → Enforcer → Enforcer
  pub remove_policy : Rule → Enforcer → Enforcer
  pub g : Enforcer → String → String → Bool
  pub enforce : (Rule → Rule → Bool) → Enforcer → Rule → Bool
  pub has_policy-any : (e : Enforcer) (r : Rule) → has_policy e r ≡ any (same r) (get_policy e)
  pub get-add :
      (r : Rule) (e : Enforcer)
      → has_policy e r ≡ false
      → get_policy (add_policy r e) ≡ get_policy e ++ (r ∷ [])
  pub add-held :
      (r : Rule) (e : Enforcer) → has_policy e r ≡ true → get_policy (add_policy r e) ≡ get_policy e
  pub get-remove :
      (r : Rule) (e : Enforcer) → get_policy (remove_policy r e) ≡ remove_same r (get_policy e)
  pub g-eq : (e : Enforcer) (a b : String) → g e a b ≡ str_eq a b
  pub enforce-any :
      (m : Rule → Rule → Bool) (e : Enforcer) (r : Rule) → enforce m e r ≡ any (m r) (get_policy e)

-- `matchers` of model.conf.
unfoldable pub matcher : (String → String → Bool) → Rule → Rule → Bool
matcher g r p =
    g r.sub p.sub
    && ((str_eq p.obj "*" || str_eq r.obj p.obj) && (str_eq p.act "*" || str_eq r.act p.act))

unfoldable pub role_for : String → Bool → String
role_for account_type is_master =
    if str_eq account_type "administrator" && is_master then "master_admin" else account_type

pub record CurrentUser : Type 0 where
  pub account_id : String
  pub account_type : String
  pub email : String
  pub is_master : Bool
  pub sensitive_data_id : String

abbrev pub forbidden : Exception
forbidden = http 403 "Insufficient permissions"

module _ (c : Casbin) where
  unfoldable pub is_allowed : c.Enforcer → String → Bool → String → String → Bool
  unfolding role_for
  is_allowed e account_type is_master action resource =
      c.enforce (matcher (c.g e)) e
        (record { sub = role_for account_type is_master; obj = resource; act = action })

  -- The dependency that guards a route: the user, or 403.
  unfoldable pub require_permission :
      String → String → c.Enforcer → CurrentUser → Result CurrentUser
  unfolding is_allowed
  require_permission action resource e user =
      if is_allowed e user.account_type user.is_master action resource
      then ok user
      else err forbidden
