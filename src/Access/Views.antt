-- ===== src/Access/Views.antt =====
-- What the views hold, without joins and duplicates.
use iot_server.Prelude.{
  ◌≡◌, refl, ◌∙◌, ap, fun_ext, arith, String, Bool, true, false, List, [], ◌∷◌, ◌++◌, str_eq,
  eq_iff, ◌&&◌, ◌||◌, Bool-cases, inl, inr,
}
use iot_server.Access.{
  Link, Item, Pair, rows_where, for_each, any, same_pair, has, distinct, pairs_of, to_managers,
  manager_vw,
}

pub any-append {ℓ} :
    {A : Type ℓ} (p : A → Bool) (xs ys : List A) → any p (xs ++ ys) ≡ any p xs || any p ys
any-append p [] ys = refl
any-append p (x ∷ xs) ys = ground (arith, any-append p xs ys)

pub any-for_each {ℓ κ} :
    {A : Type ℓ} {B : Type κ} (p : B → Bool) (f : A → List B) (xs : List A)
    → any p (for_each f xs) ≡ any (λ x. any p (f x)) xs
any-for_each p f [] = refl
any-for_each p f (x ∷ xs) = any-append p (f x) _ ∙ ap (λ b. any p (f x) || b) (any-for_each p f xs)

pub any-where {ℓ} :
    {A : Type ℓ} (p q : A → Bool) (xs : List A) → any p (rows_where q xs) ≡ any (λ x. q x && p x) xs
any-where p q [] = refl
any-where p q (x ∷ xs) = ground (arith, any-where p q xs)

pub same_pair_eq : (p q : Pair) → same_pair p q ≡ true → p ≡ q
same_pair_eq p q h = ground (arith, eq_iff p.item q.item, eq_iff p.manager q.manager)

pub has-distinct : (a m : String) (ps : List Pair) → has a m (distinct ps) ≡ has a m ps
unfolding distinct
has-distinct a m [] = refl
has-distinct a m (p ∷ ps) =
    let q : Pair = record { item = a; manager = m } in
    elim (Bool-cases (any (same_pair p) ps)) [
      | inl yes_ ↦ elim (Bool-cases (same_pair q p)) [
        | inl same ↦
            rw (yes_, same)
              (has-distinct a m ps ∙ ap (λ r. any (same_pair r) ps) (same_pair_eq q p same) ∙ yes_)
        | inr other ↦ rw (yes_, other) (has-distinct a m ps)
      ]
      | inr no_ ↦ rw no_ (ap (λ b. same_pair q p || b) (has-distinct a m ps))
    ]

-- One of the manager_service rows `links` is of the manager `m`, who exists.
abbrev pub manages : List Item → String → List Link → Bool
manages managers m links =
    any (λ (ms : Link). str_eq ms.left m) links && any (λ (g : Item). str_eq m g.id) managers

any_managers :
    (managers : List Item) (item a m : String) (ms : Link)
    → any
        (λ (g : Item).
          str_eq ms.left g.id
          && (same_pair (record { item = a; manager = m }) (record { item = item; manager = g.id })
              || false))
        managers
      ≡ str_eq a item && (str_eq ms.left m && any (λ (g : Item). str_eq m g.id) managers)
any_managers [] item a m ms = ground arith
any_managers (g ∷ gs) item a m ms =
    ground
      (arith, eq_iff ms.left g.id, eq_iff m g.id, eq_iff ms.left m, any_managers gs item a m ms)

pairs_of_lem :
    (managers : List Item) (item a m : String) (ms : Link)
    → has a m (pairs_of managers item ms)
      ≡ str_eq a item && (str_eq ms.left m && any (λ (g : Item). str_eq m g.id) managers)
unfolding pairs_of
pairs_of_lem managers item a m ms =
    let q : Pair = record { item = a; manager = m } in
    any-for_each (same_pair q) (λ (g : Item). record { item = item; manager = g.id } ∷ [])
      (rows_where (λ (g : Item). str_eq ms.left g.id) managers)
    ∙ (any-where _ (λ (g : Item). str_eq ms.left g.id) managers ∙ any_managers managers item a m ms)

pub to_managers_lem :
    (managers : List Item) (item a m : String) (links : List Link)
    → has a m (to_managers managers item links) ≡ str_eq a item && manages managers m links
unfolding to_managers
to_managers_lem managers item a m [] = ground arith
to_managers_lem managers item a m (ms ∷ links) =
    any-append (same_pair (record { item = a; manager = m })) (pairs_of managers item ms) _
    ∙ ground (arith, pairs_of_lem managers item a m ms, to_managers_lem managers item a m links)

-- A row is in the view of a manager exactly when one of its manager_service rows is his.
pub manager_vw_lem {ℓ} :
    {A : Type ℓ} (id : A → String) (links : A → List Link) (managers : List Item) (xs : List A)
    (a m : String)
    → has a m (manager_vw id links managers xs)
      ≡ any (λ x. str_eq a (id x) && manages managers m (links x)) xs
unfolding manager_vw
manager_vw_lem id links managers xs a m =
    has-distinct a m _
    ∙ (any-for_each (same_pair (record { item = a; manager = m }))
          (λ x. to_managers managers (id x) (links x)) xs
        ∙ ap (λ p. any p xs) (fun_ext λ x. to_managers_lem managers (id x) a m (links x)))
