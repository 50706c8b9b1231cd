-- ===== src/Policy/Rules.antt =====
-- Lists of the rules of a policy (app/domain/policy): what it means for two to be the same, and which
-- ones hold wildcards.
use iot_server.Prelude.{
  ◌≡◌, refl, sym, Bool, true, false, List, [], ◌∷◌, ◌++◌, str_eq, eq_iff, eq_refl, and_true, ◌&&◌,
  ◌||◌, not, arith, Bool-cases, inl, inr,
}
use mathlib.Core.Path.{subst}
use iot_server.Policy.{Rule, same, any, remove_same, matcher}

-- A wildcard stands only in rules for `master_admin`.
unfoldable pub is_explicit : Rule → Bool
is_explicit p = str_eq p.sub "master_admin" || (not (str_eq p.obj "*") && not (str_eq p.act "*"))

unfoldable pub all_explicit : List Rule → Bool
unfolding is_explicit
all_explicit [] = true
all_explicit (p ∷ ps) = is_explicit p && all_explicit ps

pub same-eq : (p q : Rule) → same p q ≡ true → p ≡ q
unfolding same
same-eq p q e =
    let (s, oa) = and_true (str_eq p.sub q.sub) _ e in
    let (o, a) = and_true (str_eq p.obj q.obj) _ oa in
    λ i. record {
      sub = (eq_iff p.sub q.sub).0 s i;
      obj = (eq_iff p.obj q.obj).0 o i;
      act = (eq_iff p.act q.act).0 a i;
    }

pub same_refl : (p : Rule) → same p p ≡ true
unfolding same
same_refl p = rw (eq_refl p.sub) (rw (eq_refl p.obj) (eq_refl p.act))

pub any-append :
    (f : Rule → Bool) (ps : List Rule) (r : Rule) → any f (ps ++ (r ∷ [])) ≡ any f ps || f r
unfolding any
any-append f [] r = ground arith
any-append f (p ∷ ps) r = rw (any-append f ps r) (ground arith)

same_sym : (p q : Rule) → same p q ≡ true → same q p ≡ true
same_sym p q e = rw (same-eq p q e) (same_refl q)

same_swap : (q r : Rule) (b : Bool) → not (same r q) && b ≡ not (same r q) && (same q r || b)
same_swap q r b = elim (Bool-cases (same q r)) [
  | inl yes_ ↦ rw (same_sym q r yes_) refl
  | inr no_ ↦ rw no_ refl
]

differs :
    (q r p : Rule) (b : Bool)
    → same r p ≡ false
    → same q p || (not (same r q) && b) ≡ not (same r q) && (same q p || b)
differs q r p b no_ = elim (Bool-cases (same r q)) [
  | inl yes_ ↦ rw (yes_, subst (λ x. same x p ≡ false) (same-eq r q yes_) no_) refl
  | inr other ↦ rw other refl
]

pub any-remove_same :
    (q r : Rule) (ps : List Rule)
    → any (same q) (remove_same r ps) ≡ not (same r q) && any (same q) ps
unfolding any remove_same
any-remove_same q r [] = ground arith
any-remove_same q r (p ∷ ps) = elim (Bool-cases (same r p)) [
  | inl yes_ ↦ rw yes_ (rw (any-remove_same q r ps) (rw (sym (same-eq r p yes_)) (same_swap q r _)))
  | inr no_ ↦ rw no_ (rw (any-remove_same q r ps) (differs q r p (any (same q) ps) no_))
]

matcher-same :
    (r p : Rule)
    → str_eq r.sub "master_admin" ≡ false
    → is_explicit p ≡ true
    → matcher str_eq r p ≡ same r p
unfolding matcher same is_explicit
matcher-same r p n e = elim (Bool-cases (str_eq r.sub p.sub)) [
  | inl yes_ ↦
      let n' : str_eq p.sub "master_admin" ≡ false =
        subst (λ x. str_eq x "master_admin" ≡ false) ((eq_iff r.sub p.sub).0 yes_) n in
      ground arith
  | inr no_ ↦ ground arith
]

pub any-matcher :
    (r : Rule) (ps : List Rule)
    → str_eq r.sub "master_admin" ≡ false
    → all_explicit ps ≡ true
    → any (matcher str_eq r) ps ≡ any (same r) ps
unfolding any all_explicit
any-matcher r [] n e = refl
any-matcher r (p ∷ ps) n e =
    let (x, xs) = and_true (is_explicit p) _ e in
    rw (matcher-same r p n x) (rw (any-matcher r ps n xs) refl)

pub all-append :
    (ps : List Rule) (r : Rule)
    → all_explicit ps ≡ true
    → is_explicit r ≡ true
    → all_explicit (ps ++ (r ∷ [])) ≡ true
unfolding all_explicit
all-append [] r e h = rw h refl
all-append (p ∷ ps) r e h =
    let (x, xs) = and_true (is_explicit p) _ e in rw x (all-append ps r xs h)

pub all-remove_same :
    (r : Rule) (ps : List Rule) → all_explicit ps ≡ true → all_explicit (remove_same r ps) ≡ true
unfolding all_explicit remove_same
all-remove_same r [] e = refl
all-remove_same r (p ∷ ps) e = elim (Bool-cases (same r p)) [
  | inl yes_ ↦ rw yes_ (all-remove_same r ps (and_true (is_explicit p) _ e).1)
  | inr no_ ↦ let (x, xs) = and_true (is_explicit p) _ e in rw no_ (rw x (all-remove_same r ps xs))
]
