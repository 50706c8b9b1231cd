-- ===== src/Policy/Changes.antt =====
-- The policy while its rules are changed through the routes of app/domain/policy/controller.py.
use iot_server.Prelude.{
  ◌≡◌, refl, sym, ap, ◌∙◌, String, Bool, true, false, List, [], ◌∷◌, str_eq, eq_iff, ◌&&◌, ◌||◌,
  not, arith, Bool-cases, and_true, inl, inr,
}
use mathlib.Core.Path.{subst}
use iot_server.Http.{Result, ok, err}
use iot_server.Policy.{
  Rule, Casbin, same, role_for, is_allowed, require_permission, CurrentUser, forbidden,
}
use iot_server.Policy.Admin.{
  Texts, valid_payload, valid_action, immutable, Request, list_policies, get_role_policies,
  add_policy, remove_policy, add_rule, remove_rule, route, guarded, handle, as_removed,
}
use iot_server.Policy.Rules.{is_explicit, all_explicit, same-eq, all-append, all-remove_same}
use iot_server.Policy.Explicit.{IsSound, has-add, has-remove, allowed-explicit, allowed-master}

module _ (c : Casbin) where
  add-explicit :
      (r : Rule) (e : c.Enforcer)
      → is_explicit r ≡ true
      → all_explicit (c.get_policy e) ≡ true
      → all_explicit (c.get_policy (add_rule c r e)) ≡ true
  unfolding add_rule
  add-explicit r e x h = elim (Bool-cases (c.has_policy e r)) [
    | inl yes_ ↦ rw yes_ h
    | inr no_ ↦ rw no_ (rw (c.get-add r e no_) (all-append (c.get_policy e) r h x))
  ]

  no_star : (t : Texts) (s : String) → not (t.has_star s) ≡ true → str_eq s "*" ≡ false
  no_star t s h = elim (Bool-cases (str_eq s "*")) [
    | inl yes_ ↦
        let star : t.has_star s ≡ true = ap t.has_star ((eq_iff s "*").0 yes_) ∙ t.has_star-star in
        ground arith
    | inr no_ ↦ no_
  ]

  no_star_action : (a : String) → valid_action a ≡ true → str_eq a "*" ≡ false
  no_star_action a h = elim (Bool-cases (str_eq a "*")) [
    | inl yes_ ↦
        let bad : false ≡ true = subst (λ x. valid_action x ≡ true) ((eq_iff a "*").0 yes_) h in cc
    | inr no_ ↦ no_
  ]

  valid-explicit : (t : Texts) (r : Rule) → valid_payload t r ≡ true → is_explicit r ≡ true
  unfolding valid_payload is_explicit
  valid-explicit t r h =
      let (sub, rest) = and_true (not (t.has_star r.sub)) _ h in
      let (obj, act) = and_true (not (t.has_star r.obj)) _ rest in
      rw (no_star t r.obj obj, no_star_action r.act act) (ground arith)

  add-IsSound :
      (t : Texts) (r : Rule) (e : c.Enforcer)
      → valid_payload t r ≡ true
      → IsSound c e
      → IsSound c (add_rule c r e)
  add-IsSound t r e valid sound = record {
    master = rw (has-add c immutable r e, sound.master) (ground arith);
    explicit = add-explicit r e (valid-explicit t r valid) sound.explicit;
  }

  remove-IsSound : (r : Rule) (e : c.Enforcer) → IsSound c e → IsSound c (remove_rule c r e).1
  unfolding remove_rule
  remove-IsSound r e sound = elim (Bool-cases (same r immutable)) [
    | inl yes_ ↦ rw yes_ sound
    | inr no_ ↦ rw no_ (elim (Bool-cases (c.has_policy e r)) [
      | inl there ↦ rw there (record {
        master = rw (has-remove c immutable r e, no_, sound.master) refl;
        explicit = rw (c.get-remove r e) (all-remove_same r (c.get_policy e) sound.explicit);
      })
      | inr absent ↦ rw absent sound
    ])
  ]

  as_removed-IsSound :
      (p : Result (Unit {0}) × c.Enforcer) → IsSound c p.1 → IsSound c (as_removed c p).1
  unfolding as_removed
  as_removed-IsSound (ok u, e) sound = sound
  as_removed-IsSound (err x, e) sound = sound

  route-IsSound :
      (t : Texts) (q : Request) (e : c.Enforcer) → IsSound c e → IsSound c (route c t q e).1
  unfolding route
  route-IsSound t list_policies e sound = sound
  route-IsSound t (get_role_policies role) e sound = sound
  route-IsSound t (add_policy r) e sound = elim (Bool-cases (valid_payload t r)) [
    | inl yes_ ↦ rw yes_ (add-IsSound t r e yes_ sound)
    | inr no_ ↦ rw no_ sound
  ]
  route-IsSound t (remove_policy r) e sound =
      as_removed-IsSound (remove_rule c r e) (remove-IsSound r e sound)

  guarded-IsSound :
      (t : Texts) (q : Request) (r : Result CurrentUser) (e : c.Enforcer)
      → IsSound c e
      → IsSound c (guarded c t q r e).1
  unfolding guarded
  guarded-IsSound t q (err x) e sound = sound
  guarded-IsSound t q (ok user) e sound = route-IsSound t q e sound

  handle-IsSound :
      (t : Texts) (user : CurrentUser) (q : Request) (e : c.Enforcer)
      → IsSound c e
      → IsSound c (handle c t user q e).1
  unfolding handle
  handle-IsSound t user q e sound =
      guarded-IsSound t q (require_permission c "administer" "_Policy" e user) e sound

  -- The enforcer after the requests of some users.
  pub after : Texts → List (CurrentUser × Request) → c.Enforcer → c.Enforcer
  after t [] e = e
  after t ((user, q) ∷ rest) e = after t rest (handle c t user q e).1

  after-IsSound :
      (t : Texts) (requests : List (CurrentUser × Request)) (e : c.Enforcer)
      → IsSound c e
      → IsSound c (after t requests e)
  unfolding after
  after-IsSound t [] e sound = sound
  after-IsSound t ((user, q) ∷ rest) e sound =
      after-IsSound t rest (handle c t user q e).1 (handle-IsSound t user q e sound)

  -- Whatever the requests to the policy routes, from a sound policy a master administrator keeps every
  -- permission.
  pub after-master :
      (t : Texts) (requests : List (CurrentUser × Request)) (e : c.Enforcer)
      (action resource : String)
      → IsSound c e
      → is_allowed c (after t requests e) "administrator" true action resource ≡ true
  after-master t requests e action resource sound =
      allowed-master c (after t requests e) action resource (after-IsSound t requests e sound)

  -- Whatever the requests to the policy routes, from a sound policy an account whose role is not
  -- `master_admin` has exactly the permissions that a rule of its role names.
  pub after-explicit :
      (t : Texts) (requests : List (CurrentUser × Request)) (e : c.Enforcer) (account_type : String)
      (is_master : Bool) (action resource : String)
      → IsSound c e
      → str_eq (role_for account_type is_master) "master_admin" ≡ false
      → is_allowed c (after t requests e) account_type is_master action resource
        ≡ c.has_policy
            (after t requests e)
            (record { sub = role_for account_type is_master; obj = resource; act = action })
  after-explicit t requests e account_type is_master action resource sound other =
      allowed-explicit c (after t requests e) account_type is_master action resource
        (after-IsSound t requests e sound) other

  not_master :
      (q r : Rule)
      → str_eq q.sub "master_admin" ≡ false
      → same r immutable ≡ true
      → same r q ≡ false
  unfolding same
  not_master q r n yes_ =
      rw (same-eq r immutable yes_) (elim (Bool-cases (str_eq "master_admin" q.sub)) [
        | inl bad ↦
            let worse : true ≡ false =
              subst (λ x. str_eq x "master_admin" ≡ false)
                (sym ((eq_iff "master_admin" q.sub).0 bad)) n in
            cc
        | inr no_ ↦ rw no_ refl
      ])

  absent-same :
      (q r : Rule) (e : c.Enforcer)
      → c.has_policy e r ≡ false
      → c.has_policy e q ≡ not (same r q) && c.has_policy e q
  absent-same q r e absent = elim (Bool-cases (same r q)) [
    | inl yes_ ↦ rw (yes_, sym (same-eq r q yes_), absent) refl
    | inr no_ ↦ rw no_ refl
  ]

  pub has-remove_rule :
      (q r : Rule) (e : c.Enforcer)
      → str_eq q.sub "master_admin" ≡ false
      → c.has_policy (remove_rule c r e).1 q ≡ not (same r q) && c.has_policy e q
  unfolding remove_rule
  has-remove_rule q r e other = elim (Bool-cases (same r immutable)) [
    | inl yes_ ↦ rw yes_ (rw (not_master q r other yes_) refl)
    | inr no_ ↦ rw no_ (elim (Bool-cases (c.has_policy e r)) [
      | inl there ↦ rw there (has-remove c q r e)
      | inr absent ↦ rw absent (absent-same q r e absent)
    ])
  ]

  -- Adding a rule grants its request and changes no other verdict; removing one revokes its request and
  -- changes no other, for accounts whose role is not `master_admin`.
  pub verdict-change :
      (t : Texts) (r : Rule) (e : c.Enforcer) (account_type : String) (is_master : Bool)
      (action resource : String)
      → IsSound c e
      → valid_payload t r ≡ true
      → str_eq (role_for account_type is_master) "master_admin" ≡ false
      → (is_allowed c (add_rule c r e) account_type is_master action resource
          ≡ same (record { sub = role_for account_type is_master; obj = resource; act = action }) r
            || is_allowed c e account_type is_master action resource)
        × (is_allowed c (remove_rule c r e).1 account_type is_master action resource
            ≡ not (
                same r
                  (record { sub = role_for account_type is_master; obj = resource; act = action }))
              && is_allowed c e account_type is_master action resource)
  verdict-change t r e account_type is_master action resource sound valid other =
      let q : Rule = record {
        sub = role_for account_type is_master;
        obj = resource;
        act = action;
      } in
      let now = allowed-explicit c e account_type is_master action resource sound other in
      (
        rw
            (
              allowed-explicit c (add_rule c r e) account_type is_master action resource
                  (add-IsSound t r e valid sound) other,
              now,
            )
            (has-add c q r e),
        rw
            (
              allowed-explicit c (remove_rule c r e).1 account_type is_master action resource
                  (remove-IsSound r e sound) other,
              now,
            )
            (has-remove_rule q r e other),
      )

  -- A user without the permission `administer` is answered 403 by every route, and changes nothing.
  pub handle-denied :
      (t : Texts) (user : CurrentUser) (q : Request) (e : c.Enforcer)
      → is_allowed c e user.account_type user.is_master "administer" "_Policy" ≡ false
      → handle c t user q e ≡ (err forbidden, e)
  unfolding handle require_permission guarded
  handle-denied t user q e no_ = rw no_ refl
