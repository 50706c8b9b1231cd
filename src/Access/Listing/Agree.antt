-- ===== src/Access/Listing/Agree.antt =====
-- `get_all` against `get_by_id` of the services of app/domain/service, device and application.
use iot_server.Prelude.{
  ℕ, ◌≡◌, refl, sym, ◌∙◌, ap, fun_ext, arith, String, Bool, true, false, Option, none, some, List,
  [], ◌∷◌, ◌++◌, str_eq, eq_refl, ◌||◌, not, Bool-cases, inl, inr,
}
use iot_server.Prelude.Lists.{length, drop}
use iot_server.Http.{Result, ok, err}
use iot_server.Policy.{CurrentUser}
use iot_server.Access.{
  Link, Item, Org, Pair, rows_where, any, has, manager_vw, service_manager_vw, device_manager_vw,
  application_manager_vw, item_id, service_links, links_through,
}
use iot_server.Access.Views.{manages, manager_vw_lem}
use iot_server.Access.Counting.{unique, count_for, count-manager_vw}
use iot_server.Access.Rows.{only, same_rows, every_row, no_row, any-drop, any-take}
use iot_server.Access.Listing.{
  PageResponse, insert_latest, latest_first, page, counted, get_for_manager, get_every, list_as,
  get_all, first_with, may_see, shown, get_by_id, created, list_services, get_service, list_devices,
  get_device, list_applications, get_application,
}

abbrev pub is_ok {ℓ} : {A : Type ℓ} → Result A → Bool
is_ok (ok a) = true
is_ok (err e) = false

-- The total of a list counts the rows of the table that `returned` selects, and the rows of the page are
-- among these.
abbrev pub Agrees : {A : Type 0} → (A → Bool) → List A → PageResponse A → Type 0
Agrees returned rows r =
    (r.total ≡ length (rows_where returned rows)) × (any (λ x. not (returned x)) r.rows ≡ false)

module _ {A : Type 0} (id : A → String) (created_at : A → ℕ) where
  first_with-shown :
      (name : String) (allowed : Bool) (before : List A) (x : A) (after : List A)
      → is_ok
          (shown id created_at name allowed (first_with id created_at (id x) (before ++ x ∷ after)))
        ≡ allowed
  unfolding shown first_with
  first_with-shown name allowed [] x after = rw (eq_refl (id x)) (ground arith)
  first_with-shown name allowed (p ∷ before) x after = elim (Bool-cases (str_eq (id p) (id x))) [
    | inl yes_ ↦ rw yes_ (ground arith)
    | inr no_ ↦ rw no_ (first_with-shown name allowed before x after)
  ]

  counted-total : (n : ℕ) (rows : List A) → (counted id created_at n rows).total ≡ n
  unfolding counted
  counted-total n rows = ground arith

  seen_by_manager :
      (links : A → List Link) (managers : List Item) (rows : List A) (m : String)
      → unique id rows ≡ true
      → length (rows_where (λ x. has (id x) m (manager_vw id links managers rows)) rows)
        ≡ count_for m (manager_vw id links managers rows)
  seen_by_manager links managers rows m u =
      ap length (
        same_rows id _ (λ x. manages managers m (links x)) rows [] rows refl
          λ before x after e.
            manager_vw_lem id links managers rows (id x) m
            ∙ rw e (only id (λ y. manages managers m (links y)) before x after (rw e at u)))
      ∙ sym (count-manager_vw m id links managers rows u)

  any-insert_latest :
      (q : A → Bool) (x : A) (ys : List A)
      → any q (insert_latest id created_at x ys) ≡ q x || any q ys
  unfolding insert_latest
  any-insert_latest q x [] = refl
  any-insert_latest q x (y ∷ ys) = ground (arith, any-insert_latest q x ys)

  any-latest_first : (q : A → Bool) (xs : List A) → any q (latest_first id created_at xs) ≡ any q xs
  unfolding latest_first
  any-latest_first q [] = refl
  any-latest_first q (x ∷ xs) = any-insert_latest q x _ ∙ ap (λ b. q x || b) (any-latest_first q xs)

  any_refused : (r : A → Bool) (xs : List A) → any (λ x. not (r x)) (rows_where r xs) ≡ false
  any_refused r [] = refl
  any_refused r (x ∷ xs) = ground (arith, any_refused r xs)

  any-page :
      (q : A → Bool) (offset limit : ℕ) (xs : List A)
      → any q xs ≡ false
      → any q (page id created_at offset limit xs) ≡ false
  any-page q offset limit xs h = any-take q limit (drop offset xs) (any-drop q offset xs h)

  any-counted :
      (q : A → Bool) (n : ℕ) (rows : List A)
      → any q rows ≡ false
      → any q (counted id created_at n rows).rows ≡ false
  unfolding counted
  any-counted q n rows h = ground arith

  abbrev seen : Option CurrentUser → List Pair → A → Bool
  seen user view x = may_see id created_at user view (λ _. false) (id x)

  selected :
      (name : String) (user : Option CurrentUser) (view : List Pair) (rows : List A)
      → rows_where (λ x. is_ok (get_by_id id created_at name user view rows (id x))) rows
        ≡ rows_where (seen user view) rows
  unfolding get_by_id
  selected name user view rows =
      same_rows id _ _ rows [] rows refl
        λ before x after e. rw e (first_with-shown name _ before x after)

  module _ (name : String) (user : Option CurrentUser) (view : List Pair) (rows : List A) where
    abbrev returned : A → Bool
    returned x = is_ok (get_by_id id created_at name user view rows (id x))

    get_every-Agrees :
        (offset limit : ℕ)
        → rows_where returned rows ≡ rows
        → Agrees returned rows (get_every id created_at rows offset limit)
    unfolding get_every
    get_every-Agrees offset limit e = (
      ap length (sym e),
      any-page (λ x. not (returned x)) offset limit rows
          (ap (any (λ x. not (returned x))) (sym e) ∙ any_refused returned rows),
    )

    managed-Agrees :
        (m : String) (offset limit : ℕ)
        → rows_where returned rows ≡ rows_where (λ x. has (id x) m view) rows
        → length (rows_where (λ x. has (id x) m view) rows) ≡ count_for m view
        → Agrees returned rows (get_for_manager id created_at view rows m offset limit)
    unfolding get_for_manager
    managed-Agrees m offset limit e n = (
      counted-total _ _ ∙ (sym n ∙ ap length (sym e)),
      any-counted (λ x. not (returned x)) _ _
          (any-page (λ x. not (returned x)) offset limit _
            (any-latest_first (λ x. not (returned x)) _
              ∙ (ap (any (λ x. not (returned x))) (sym e) ∙ any_refused returned rows))),
    )

    none-Agrees :
        rows_where returned rows ≡ [] → Agrees returned rows (record { total = 0; rows = [] })
    none-Agrees e = (ap length (sym e), refl)

  -- The total of a list is the number of rows that the user can also retrieve by their ids, and each
  -- row of a page can be retrieved.
  pub get_all-Agrees :
      (links : A → List Link) (managers : List Item) (rows : List A) (name : String)
      (user : Option CurrentUser) (offset limit : ℕ)
      → unique id rows ≡ true
      → let view = manager_vw id links managers rows in
        Agrees
          (λ x. is_ok (get_by_id id created_at name user view rows (id x)))
          rows
          (get_all id created_at user view rows offset limit)
  unfolding get_all list_as may_see
  get_all-Agrees links managers rows name none offset limit u =
      get_every-Agrees name none _ rows offset limit (selected name none _ rows ∙ every_row id rows)
  get_all-Agrees links managers rows name (some c) offset limit u =
      let view = manager_vw id links managers rows in
      let sel = λ (p : A → Bool) (agree : (x : A) → seen (some c) view x ≡ p x).
        selected name (some c) view rows
        ∙ ap (λ (t : A → Bool). rows_where t rows) (fun_ext agree) in
      elim (Bool-cases (str_eq c.account_type "administrator")) [
        | inl adm ↦ rw adm (
            get_every-Agrees name (some c) view rows offset limit
              (sel (λ x. true) (λ x. rw adm refl) ∙ every_row id rows))
        | inr no_adm ↦ elim (Bool-cases (str_eq c.account_type "manager")) [
          | inl man ↦
              rw (no_adm, man)
                (managed-Agrees name (some c) view rows c.account_id offset limit
                  (sel (λ x. has (id x) c.account_id view) (λ x. rw (no_adm, man) refl))
                  (seen_by_manager links managers rows c.account_id u))
          | inr no_man ↦
              rw (no_adm, no_man)
                (elim (Bool-cases (str_eq c.account_type "user")) [
                  | inl usr ↦ rw usr (
                      none-Agrees name (some c) view rows
                        (sel (λ x. false) (λ x. rw (no_adm, no_man, usr) refl) ∙ no_row id rows))
                  | inr no_usr ↦ rw no_usr (
                      none-Agrees name (some c) view rows
                        (sel (λ x. false) (λ x. rw (no_adm, no_man, no_usr) refl) ∙ no_row id rows))
                ])
        ]
      ]

-- Where ids are unique, the total that services, devices and applications are listed with is the number
-- of rows that the same user can retrieve by their ids, and each row of a page is one of them.
pub listings_agree :
    (user : Option CurrentUser) (db : Org) (offset limit : ℕ)
    → unique item_id db.services ≡ true
    → unique item_id db.devices ≡ true
    → unique item_id db.applications ≡ true
    → Agrees
        (λ x. is_ok (get_service user db x.id))
        db.services
        (list_services user db offset limit)
      × Agrees (λ x. is_ok (get_device user db x.id)) db.devices (list_devices user db offset limit)
      × Agrees
          (λ x. is_ok (get_application user db x.id))
          db.applications
          (list_applications user db offset limit)
unfolding list_services get_service list_devices get_device list_applications get_application
    service_manager_vw device_manager_vw application_manager_vw
listings_agree user db offset limit s d a = (
  get_all-Agrees item_id created (service_links db) db.managers db.services _ user offset limit s,
  get_all-Agrees item_id created (links_through db db.device_services) db.managers db.devices _ user
      offset limit d,
  get_all-Agrees item_id created (links_through db db.application_services) db.managers
      db.applications _ user offset limit a,
)
