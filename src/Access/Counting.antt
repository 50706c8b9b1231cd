-- ===== src/Access/Counting.antt =====
-- How many rows a view has for one manager.
use iot_server.Prelude.{
  ℕ, ◌+◌, ◌≡◌, refl, ◌∙◌, ap, arith, String, Bool, true, false, List, [], ◌∷◌, ◌++◌, str_eq, eq_iff,
  eq_refl, ◌&&◌, ◌||◌, not, if◌then◌else◌, Bool-cases, and_true, inl, inr,
}
use iot_server.Prelude.Lists.{length}
use iot_server.Access.{
  Link, Item, Pair, rows_where, for_each, any, same_pair, has, distinct, pairs_of, to_managers,
  manager_vw,
}
use iot_server.Access.Views.{any-append, manages, to_managers_lem}

abbrev pub unique {ℓ} : {A : Type ℓ} → (A → String) → List A → Bool
unique id [] = true
unique id (x ∷ xs) = not (any (λ y. str_eq (id x) (id y)) xs) && unique id xs

-- `SELECT COUNT(…) FROM <view> WHERE manager_id = …`
abbrev pub count_for : String → List Pair → ℕ
count_for m ps = length (rows_where (λ (p : Pair). str_eq p.manager m) ps)

abbrev all_of : String → List Pair → Bool
all_of s [] = true
all_of s (p ∷ ps) = str_eq p.item s && all_of s ps

all_of-append :
    (s : String) (ps qs : List Pair)
    → all_of s ps ≡ true
    → all_of s qs ≡ true
    → all_of s (ps ++ qs) ≡ true
all_of-append s [] qs a b = b
all_of-append s (p ∷ ps) qs a b = ground (arith, all_of-append s ps qs)

all_of-pairs_of :
    (managers : List Item) (s : String) (ms : Link) → all_of s (pairs_of managers s ms) ≡ true
unfolding pairs_of
all_of-pairs_of [] s ms = refl
all_of-pairs_of (g ∷ gs) s ms = ground (arith, eq_refl s, all_of-pairs_of gs s ms)

all_of-to_managers :
    (managers : List Item) (s : String) (links : List Link)
    → all_of s (to_managers managers s links) ≡ true
unfolding to_managers
all_of-to_managers managers s [] = refl
all_of-to_managers managers s (ms ∷ links) =
    all_of-append s (pairs_of managers s ms) _ (all_of-pairs_of managers s ms)
      (all_of-to_managers managers s links)

-- The rows of one item in front of those of others add one row for a manager at most.
count-block :
    (s m : String) (block rest : List Pair)
    → all_of s block ≡ true
    → has s m rest ≡ false
    → count_for m (distinct (block ++ rest))
      ≡ (if has s m block then 1 else 0) + count_for m (distinct rest)
unfolding distinct
count-block s m [] rest a h = omega arith
count-block s m (p ∷ ps) rest a h =
    let ih = count-block s m ps rest (and_true (str_eq p.item s) _ a).1 h in
    let item_is = (eq_iff p.item s).0 (and_true (str_eq p.item s) _ a).0 in
    let within : any (same_pair (record { item = s; manager = m })) (ps ++ rest)
        ≡ has s m ps || false =
      any-append _ ps rest ∙ ap (λ b. has s m ps || b) h in
    elim (Bool-cases (str_eq p.manager m)) [
      | inl yes_ ↦
          let same : p ≡ record { item = s; manager = m } = ground (arith, eq_iff p.manager m) in
          let seen : any (same_pair p) (ps ++ rest) ≡ has s m ps || false =
            ap (λ q. any (same_pair q) (ps ++ rest)) same ∙ within in
          let this : same_pair (record { item = s; manager = m }) p ≡ true =
            ground (arith, eq_iff p.manager m, eq_refl s, eq_refl m) in
          rw (seen, this) (ground arith)
      | inr no_ ↦
          let other : same_pair (record { item = s; manager = m }) p ≡ false =
            ground (arith, eq_iff p.manager m, eq_iff m p.manager) in
          rw other (ground arith)
    ]

none_of :
    {A : Type 0} (s m : String) (id : A → String) (links : A → List Link) (managers : List Item)
    (xs : List A)
    → any (λ y. str_eq s (id y)) xs ≡ false
    → has s m (for_each (λ x. to_managers managers (id x) (links x)) xs) ≡ false
none_of s m id links managers [] h = refl
none_of s m id links managers (x ∷ xs) h =
    any-append _ (to_managers managers (id x) (links x)) _
    ∙ ground
        (arith, to_managers_lem managers (id x) s m (links x), none_of s m id links managers xs)

-- The rows of a view for a manager are as many as the rows of the table that are his.
pub count-manager_vw :
    {A : Type 0} (m : String) (id : A → String) (links : A → List Link) (managers : List Item)
    (xs : List A)
    → unique id xs ≡ true
    → count_for m (manager_vw id links managers xs)
      ≡ length (rows_where (λ x. manages managers m (links x)) xs)
unfolding manager_vw
count-manager_vw m id links managers [] u = unfold distinct in refl
count-manager_vw m id links managers (x ∷ xs) u =
    count-block (id x) m (to_managers managers (id x) (links x)) _
      (all_of-to_managers managers (id x) (links x))
      (none_of (id x) m id links managers xs (ground arith))
    ∙ ground (
      arith,
      to_managers_lem managers (id x) (id x) m (links x),
      eq_refl (id x),
      count-manager_vw m id links managers xs,
    )
