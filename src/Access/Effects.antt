-- ===== src/Access/Effects.antt =====
-- What the routes of app/domain/service/controller.py change in what a manager may see.
use iot_server.Prelude.{
  ◌≡◌, refl, sym, ◌∙◌, ap, fun_ext, arith, String, Bool, true, false, none, some, List, [], ◌∷◌,
  str_eq, eq_iff, eq_refl, ◌&&◌, if◌then◌else◌, Bool-cases, and_true, inl, inr,
}
use iot_server.Http.{ok, err, Exception, http}
use iot_server.Policy.{CurrentUser}
use iot_server.Access.{
  Link, Item, Org, any, has, service_manager_vw, service_links, of_service, item_id,
}
use iot_server.Access.Views.{manages, manager_vw_lem, any-where}
use iot_server.Access.Listing.{get_service, get_by_id, may_see, shown, first_with, created}
use iot_server.Access.Assign.{exists, linked, assign_link, link, assign_manager, no_service}

linked-of_service :
    (s m : String) (db : Org)
    → any (λ (ms : Link). str_eq ms.left m) (of_service db s) ≡ linked m s db.manager_services
unfolding of_service
linked-of_service s m db =
    any-where (λ (ms : Link). str_eq ms.left m) (λ (ms : Link). str_eq s ms.right)
      db.manager_services
    ∙ ap (λ p. any p db.manager_services)
        (fun_ext λ (ms : Link). ground (arith, eq_iff s ms.right, eq_iff ms.right s))

-- A manager sees a service exactly when both exist and are related.
pub service_access :
    (s m : String) (db : Org)
    → has s m (service_manager_vw db)
      ≡ exists s db.services && (linked m s db.manager_services && exists m db.managers)
unfolding service_manager_vw service_links
service_access s m db =
    manager_vw_lem item_id (service_links db) db.managers db.services s m ∙ same db.services
  where
    same :
        (xs : List Item)
        → any (λ (x : Item). str_eq s x.id && manages db.managers m (of_service db x.id)) xs
          ≡ exists s xs && (linked m s db.manager_services && exists m db.managers)
    same [] = refl
    same (x ∷ xs) = elim (Bool-cases (str_eq s x.id)) [
      | inl yes_ ↦
          let e = (eq_iff s x.id).0 yes_ in
          let here : manages db.managers m (of_service db x.id)
              ≡ linked m s db.manager_services && exists m db.managers =
            ap (λ k. manages db.managers m (of_service db k)) (sym e)
            ∙ ap (λ b. b && exists m db.managers) (linked-of_service s m db) in
          rw (yes_, here) (ground (arith, same xs))
      | inr no_ ↦ rw no_ (same xs)
    ]

assign_link-ok :
    (a b : Bool) (x y z : Exception) (row : Link) (links : List Link) {made : Link}
    → (assign_link a b x y z row links).0 ≡ ok made
    → (a ≡ true)
      × (b ≡ true)
      × (linked row.left row.right links ≡ false)
      × ((assign_link a b x y z row links).1 ≡ row ∷ links)
unfolding assign_link
assign_link-ok true true x y z row links h = elim (Bool-cases (linked row.left row.right links)) [
  | inl yes_ ↦ let bad : err z ≡ ok _ = rw yes_ at h in cc
  | inr no_ ↦ (refl, refl, no_, rw no_ refl)
]
assign_link-ok true false x y z row links h = cc
assign_link-ok false b x y z row links h = cc

module _ (u : CurrentUser) (is_manager : u.account_type ≡ "manager") where
  manager_test :
      (str_eq u.account_type "administrator" ≡ false) × (str_eq u.account_type "manager" ≡ true)
  manager_test = rw is_manager (refl, refl)

  get_service_lem :
      (db : Org) (k : String)
      → get_service (some u) db k
        ≡ shown item_id created "Service"
            (has k u.account_id (service_manager_vw db))
            (first_with item_id created k db.services)
  unfolding get_service get_by_id may_see
  get_service_lem db k = rw (manager_test.0, manager_test.1) refl

  -- The access of the manager to a service, after the relation was written.
  pub get_service_after :
      (db : Org) (links : List Link) (k : String) (b : Bool)
      → exists k db.services && (linked u.account_id k links && exists u.account_id db.managers) ≡ b
      → get_service (some u) (record db { manager_services = links }) k
        ≡ shown item_id created "Service" b (first_with item_id created k db.services)
  get_service_after db links k b h =
      get_service_lem (record db { manager_services = links }) k
      ∙ ap (λ c. shown item_id created "Service" c (first_with item_id created k db.services))
          (service_access k u.account_id (record db { manager_services = links }) ∙ h)

  -- After a manager was assigned to a service, `get_service` answers him for that service as it answers
  -- anyone inside the server, and its answers to managers for all other services, and to other managers,
  -- are those of before.
  pub get_service-assign_manager :
      (new s m : String) (db : Org) {made : Link}
      → (assign_manager new s m db).0 ≡ ok made
      → (k : String)
      → get_service (some u) (assign_manager new s m db).1 k ≡ (
          if str_eq u.account_id m && str_eq k s
          then get_service none db k
          else get_service (some u) db k)
  unfolding assign_manager
  get_service-assign_manager new s m db h k =
      let (has_s, has_m, fresh, e) =
        assign_link-ok (exists s db.services) (exists m db.managers) no_service
          (http 404 "Manager not found") (http 409 "Manager already assigned to this service")
          (link new m s) db.manager_services h in
      rw e (elim (Bool-cases (str_eq u.account_id m && str_eq k s)) [
        | inl yes_ ↦
            let (is_m, is_s) = and_true (str_eq u.account_id m) _ yes_ in
            rw yes_ (
              get_service_after db (link new m s ∷ db.manager_services) k true (
                rw
                  (
                    (eq_iff u.account_id m).0 is_m,
                    (eq_iff k s).0 is_s,
                    has_s,
                    has_m,
                    eq_refl m,
                    eq_refl s,
                  )
                  refl)
              ∙ unfold get_service get_by_id may_see in refl)
        | inr no_ ↦ rw no_ (
            get_service_after db (link new m s ∷ db.manager_services) k _
              (ground (arith, eq_iff u.account_id m, eq_iff m u.account_id, eq_iff k s, eq_iff s k))
            ∙ sym (get_service_after db db.manager_services k _ refl))
      ])
