-- ===== src/Policy/Seed.antt =====
-- `_seed_if_empty` of app/shared/authorization/enforcer.py, which reads policy.csv into an empty table.
use iot_server.Prelude.{
  ◌≡◌, refl, sym, ◌∙◌, String, Bool, true, Option, none, some, List, [], ◌∷◌, map, str_eq, ◌||◌,
  if◌then◌else◌, arith, Bool-cases, and_true, inl, inr,
}
use iot_server.Policy.{Rule, Casbin, same}
use iot_server.Policy.Admin.{immutable}
use iot_server.Policy.Rules.{is_explicit, all_explicit, all-append, any-append, same_refl}
use iot_server.Policy.Explicit.{IsSound}

-- What the reader of the file takes from Python's `str`.
pub record CsvText : Type 0 where
  pub strip : String → String
  pub starts_with_hash : String → Bool
  pub split_comma : String → List String

unfoldable pub rule_of : List String → Option Rule
rule_of [] = none
rule_of (kind ∷ []) = none
rule_of (kind ∷ sub ∷ []) = none
rule_of (kind ∷ sub ∷ obj ∷ []) = none
rule_of (kind ∷ sub ∷ obj ∷ act ∷ rest) =
    if str_eq kind "p" then some (record { sub = sub; obj = obj; act = act }) else none

unfoldable pub seed_line : CsvText → String → Option Rule
unfolding rule_of
seed_line t raw =
    let line = t.strip raw in
    if str_eq line "" || t.starts_with_hash line
    then none
    else rule_of (map t.strip (t.split_comma line))

unfoldable pub and_then : Option Rule → List Rule → List Rule
and_then none rs = rs
and_then (some r) rs = r ∷ rs

unfoldable pub seed_rules : CsvText → List String → List Rule
unfolding seed_line and_then
seed_rules t [] = []
seed_rules t (raw ∷ lines) = and_then (seed_line t raw) (seed_rules t lines)

module _ (c : Casbin) where
  unfoldable pub add_all : List Rule → c.Enforcer → c.Enforcer
  add_all [] e = e
  add_all (r ∷ rs) e = add_all rs (c.add_policy r e)

  unfoldable pub seed_policies : List Rule → List Rule → c.Enforcer → c.Enforcer
  unfolding add_all
  seed_policies [] rs e = add_all rs e
  seed_policies (p ∷ ps) rs e = e

  unfoldable pub seed_if_empty : CsvText → List String → c.Enforcer → c.Enforcer
  unfolding seed_policies seed_rules
  seed_if_empty t lines e = seed_policies (c.get_policy e) (seed_rules t lines) e

  -- Adding explicit rules one by one keeps the held ones, adds all, and stays explicit.
  add_one-explicit :
      (r : Rule) (e : c.Enforcer)
      → is_explicit r ≡ true
      → all_explicit (c.get_policy e) ≡ true
      → all_explicit (c.get_policy (c.add_policy r e)) ≡ true
  add_one-explicit r e x h = elim (Bool-cases (c.has_policy e r)) [
    | inl yes_ ↦ rw (c.add-held r e yes_) h
    | inr no_ ↦ rw (c.get-add r e no_) (all-append (c.get_policy e) r h x)
  ]

  add_one-has :
      (q r : Rule) (e : c.Enforcer)
      → c.has_policy e q ≡ true
      → c.has_policy (c.add_policy r e) q ≡ true
  add_one-has q r e h = elim (Bool-cases (c.has_policy e r)) [
    | inl yes_ ↦
        rw (c.has_policy-any (c.add_policy r e) q, c.add-held r e yes_)
          (sym (c.has_policy-any e q) ∙ h)
    | inr no_ ↦
        rw
          (
            c.has_policy-any (c.add_policy r e) q,
            c.get-add r e no_,
            any-append (same q) (c.get_policy e) r,
            sym (c.has_policy-any e q),
            h,
          )
          refl
  ]

  add_one_self : (r : Rule) (e : c.Enforcer) → c.has_policy (c.add_policy r e) r ≡ true
  add_one_self r e = elim (Bool-cases (c.has_policy e r)) [
    | inl yes_ ↦ add_one-has r r e yes_
    | inr no_ ↦
        rw
          (
            c.has_policy-any (c.add_policy r e) r,
            c.get-add r e no_,
            any-append (same r) (c.get_policy e) r,
            same_refl r,
          )
          (ground arith)
  ]

  add_all-explicit :
      (rs : List Rule) (e : c.Enforcer)
      → all_explicit rs ≡ true
      → all_explicit (c.get_policy e) ≡ true
      → all_explicit (c.get_policy (add_all rs e)) ≡ true
  unfolding add_all all_explicit
  add_all-explicit [] e x h = h
  add_all-explicit (r ∷ rs) e x h =
      let (first, rest) = and_true (is_explicit r) _ x in
      add_all-explicit rs (c.add_policy r e) rest (add_one-explicit r e first h)

  add_all-has :
      (q : Rule) (rs : List Rule) (e : c.Enforcer)
      → c.has_policy e q ≡ true
      → c.has_policy (add_all rs e) q ≡ true
  unfolding add_all
  add_all-has q [] e h = h
  add_all-has q (r ∷ rs) e h = add_all-has q rs (c.add_policy r e) (add_one-has q r e h)

  seed_policies-IsSound :
      (rs : List Rule) (ps : List Rule) (e : c.Enforcer)
      → all_explicit rs ≡ true
      → c.get_policy e ≡ ps
      → ((p : Rule) (qs : List Rule) → ps ≡ p ∷ qs → IsSound c e)
      → IsSound c (seed_policies ps (immutable ∷ rs) e)
  unfolding seed_policies add_all is_explicit all_explicit
  seed_policies-IsSound rs [] e x none_ sound = record {
    master = add_all-has immutable rs (c.add_policy immutable e) (add_one_self immutable e);
    explicit =
        add_all-explicit rs (c.add_policy immutable e) x
          (add_one-explicit immutable e refl (rw none_ refl));
  }
  seed_policies-IsSound rs (p ∷ ps) e x some_ sound = sound p ps refl

  -- A start of the server from an empty rule table, or from one that is sound, gives a sound policy,
  -- when the file's first rule is the master's wildcard and its other rules write no wildcard for
  -- another role.
  pub seed_if_empty-IsSound :
      (t : CsvText) (lines : List String) (rs : List Rule) (e : c.Enforcer)
      → seed_rules t lines ≡ immutable ∷ rs
      → all_explicit rs ≡ true
      → ((p : Rule) (qs : List Rule) → c.get_policy e ≡ p ∷ qs → IsSound c e)
      → IsSound c (seed_if_empty t lines e)
  unfolding seed_if_empty
  seed_if_empty-IsSound t lines rs e read x sound =
      rw read (seed_policies-IsSound rs (c.get_policy e) e x refl sound)
