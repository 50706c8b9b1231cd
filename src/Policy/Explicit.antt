-- ===== src/Policy/Explicit.antt =====
-- The verdicts of the enforcer (app/shared/authorization/enforcer.py) on a policy whose wildcards all
-- belong to the master.
use iot_server.Prelude.{
  ◌≡◌, refl, sym, ap, ◌∙◌, String, Bool, true, false, List, [], ◌∷◌, str_eq, ◌&&◌, ◌||◌, not, arith,
  Bool-cases, inl, inr,
}
use mathlib.Core.Path.{fun_ext}
use iot_server.Policy.{Rule, Casbin, same, any, matcher, role_for, is_allowed}
use iot_server.Policy.Admin.{immutable, add_rule}
use iot_server.Policy.Rules.{all_explicit, same-eq, any-append, any-remove_same, any-matcher}

module _ (c : Casbin) where
  -- The rules hold the master's wildcard, and no wildcard for another role.
  pub record IsSound (e : c.Enforcer) : Type 0 where
    pub master : c.has_policy e immutable ≡ true
    pub explicit : all_explicit (c.get_policy e) ≡ true

  held :
      (q r : Rule) (e : c.Enforcer)
      → c.has_policy e r ≡ true
      → c.has_policy e q ≡ same q r || c.has_policy e q
  held q r e h = elim (Bool-cases (same q r)) [
    | inl yes_ ↦ rw (yes_, same-eq q r yes_, h) refl
    | inr no_ ↦ rw no_ refl
  ]

  pub has-add :
      (q r : Rule) (e : c.Enforcer) → c.has_policy (add_rule c r e) q ≡ same q r || c.has_policy e q
  unfolding add_rule
  has-add q r e = elim (Bool-cases (c.has_policy e r)) [
    | inl yes_ ↦ rw yes_ (held q r e yes_)
    | inr no_ ↦ rw no_ (
        rw
          (
            c.has_policy-any (c.add_policy r e) q,
            c.get-add r e no_,
            any-append (same q) (c.get_policy e) r,
            c.has_policy-any e q,
          )
          (ground arith))
  ]

  pub has-remove :
      (q r : Rule) (e : c.Enforcer)
      → c.has_policy (c.remove_policy r e) q ≡ not (same r q) && c.has_policy e q
  has-remove q r e =
      rw
        (
          c.has_policy-any (c.remove_policy r e) q,
          c.get-remove r e,
          any-remove_same q r (c.get_policy e),
          c.has_policy-any e q,
        )
        refl

  by_matcher :
      (e : c.Enforcer) (q : Rule)
      → c.enforce (matcher (c.g e)) e q ≡ any (matcher str_eq q) (c.get_policy e)
  by_matcher e q =
      c.enforce-any (matcher (c.g e)) e q
      ∙ ap (λ g. any (matcher g q) (c.get_policy e)) (fun_ext (λ a. fun_ext (λ b. c.g-eq e a b)))

  -- In a sound policy, an account whose role is not `master_admin` may do exactly what a rule of its
  -- role says.
  pub allowed-explicit :
      (e : c.Enforcer) (account_type : String) (is_master : Bool) (action resource : String)
      → IsSound e
      → str_eq (role_for account_type is_master) "master_admin" ≡ false
      → is_allowed c e account_type is_master action resource
        ≡ c.has_policy e
            (record { sub = role_for account_type is_master; obj = resource; act = action })
  unfolding is_allowed
  allowed-explicit e account_type is_master action resource sound other =
      let q : Rule = record {
        sub = role_for account_type is_master;
        obj = resource;
        act = action;
      } in
      by_matcher e q
      ∙ any-matcher q (c.get_policy e) other sound.explicit
      ∙ sym (c.has_policy-any e q)

  any-master :
      (r : Rule) (ps : List Rule)
      → str_eq r.sub "master_admin" ≡ true
      → any (same immutable) ps ≡ true
      → any (matcher str_eq r) ps ≡ true
  unfolding any matcher
  any-master r [] e h = h
  any-master r (p ∷ ps) e h = elim (Bool-cases (same immutable p)) [
    | inl yes_ ↦ rw (sym (same-eq immutable p yes_)) (rw e refl)
    | inr no_ ↦ rw (any-master r ps e (rw no_ at h)) (ground arith)
  ]

  -- A master administrator may do everything.
  pub allowed-master :
      (e : c.Enforcer) (action resource : String)
      → IsSound e
      → is_allowed c e "administrator" true action resource ≡ true
  unfolding is_allowed role_for
  allowed-master e action resource sound =
      let q : Rule = record { sub = "master_admin"; obj = resource; act = action } in
      by_matcher e q
      ∙ any-master q (c.get_policy e) refl (sym (c.has_policy-any e immutable) ∙ sound.master)
