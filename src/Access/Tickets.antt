-- ===== src/Access/Tickets.antt =====
-- app/domain/tickets/repository.py and service.py: which tickets are listed and returned to whom.
use iot_server.Prelude.{
  ℕ, suc, ◌+◌, ◌≡◌, refl, ◌∙◌, ap, arith, String, true, false, Option, none, some, List, [], ◌∷◌,
  str_eq, ◌&&◌, if◌then◌else◌, Bool-cases, inl, inr,
}
use iot_server.Prelude.Lists.{length}
use iot_server.Http.{Result}
use iot_server.Policy.{CurrentUser}
use iot_server.Access.{
  Link, Org, Pair, EcosystemTicket, ServiceTicket, rows_where, for_each, any, has, same_pair,
  distinct, service_manager_vw, ticket_manager_vw, manager_vw, Item, to_managers, service_links,
  item_id,
}
use iot_server.Access.Views.{same_pair_eq, has-distinct}
use iot_server.Access.Assign.{linked}
use iot_server.Access.Effects.{service_access}
use iot_server.Access.Listing.{
  PageResponse, get_every, list_as, get_for_manager, latest_first, page, counted, first_with, shown,
  empty_page,
}

abbrev pub ticket_id : ServiceTicket → String
ticket_id t = t.id

abbrev pub opened : ServiceTicket → ℕ
opened t = t.created_at

abbrev pub ecosystem_id : EcosystemTicket → String
ecosystem_id t = t.id

abbrev pub ecosystem_opened : EcosystemTicket → ℕ
ecosystem_opened t = t.created_at

-- The tickets of the services that the view has for the manager.
abbrev pub of_managed : Org → String → List ServiceTicket
of_managed db manager_id =
    rows_where (λ (t : ServiceTicket). has t.service_id manager_id (service_manager_vw db))
      db.service_tickets

-- `SELECT COUNT(st.id) FROM service_ticket st JOIN service_manager_vw smv …`
unfoldable pub count_joined : String → List Pair → List ServiceTicket → ℕ
count_joined manager_id view [] = 0
count_joined manager_id view (t ∷ ts) =
    length (rows_where (same_pair (record { item = t.service_id; manager = manager_id })) view)
    + count_joined manager_id view ts

unfoldable pub get_for_manager_sql : Org → String → ℕ → ℕ → PageResponse ServiceTicket
unfolding count_joined counted latest_first
get_for_manager_sql db manager_id offset limit =
    counted ticket_id opened (count_joined manager_id (service_manager_vw db) db.service_tickets) (
      page ticket_id opened offset limit (latest_first ticket_id opened (of_managed db manager_id)))

-- `ServiceTicket.user_role.has(user_id=user_id)`
abbrev pub of_user : Org → String → List ServiceTicket
of_user db user_id =
    rows_where
      (λ (t : ServiceTicket).
        any (λ (ur : Link). str_eq ur.id t.user_role_id && str_eq ur.left user_id) db.user_roles)
      db.service_tickets

unfoldable pub get_for_user : Org → String → ℕ → ℕ → PageResponse ServiceTicket
unfolding latest_first
get_for_user db user_id offset limit = record {
  total = length (of_user db user_id);
  rows = page ticket_id opened offset limit (latest_first ticket_id opened (of_user db user_id));
}

unfoldable pub list_service_tickets : Option CurrentUser → Org → ℕ → ℕ → PageResponse ServiceTicket
unfolding get_every list_as get_for_manager_sql get_for_user
list_service_tickets none db offset limit =
    get_every ticket_id opened db.service_tickets offset limit
list_service_tickets (some u) db offset limit =
    list_as ticket_id opened u.account_type
      (get_every ticket_id opened db.service_tickets offset limit)
      (get_for_manager_sql db u.account_id offset limit) (get_for_user db u.account_id offset limit)

-- `get_by_id` of both services asks nothing of the user.
unfoldable pub get_service_ticket : Option CurrentUser → Org → String → Result ServiceTicket
unfolding shown first_with
get_service_ticket user db key =
    shown ticket_id opened "ServiceTicket" true (first_with ticket_id opened key db.service_tickets)

unfoldable pub list_ecosystem_tickets :
    Option CurrentUser → Org → ℕ → ℕ → PageResponse EcosystemTicket
unfolding get_every list_as get_for_manager
list_ecosystem_tickets none db offset limit =
    get_every ecosystem_id ecosystem_opened db.ecosystem_tickets offset limit
list_ecosystem_tickets (some u) db offset limit =
    list_as ecosystem_id ecosystem_opened u.account_type
      (get_every ecosystem_id ecosystem_opened db.ecosystem_tickets offset limit)
      (get_for_manager ecosystem_id ecosystem_opened (ticket_manager_vw db) db.ecosystem_tickets
        u.account_id offset limit)
      (empty_page ecosystem_id ecosystem_opened)

unfoldable pub get_ecosystem_ticket : Option CurrentUser → Org → String → Result EcosystemTicket
unfolding shown first_with
get_ecosystem_ticket user db key =
    shown ecosystem_id ecosystem_opened "EcosystemTicket" true
      (first_with ecosystem_id ecosystem_opened key db.ecosystem_tickets)

-- A view has a row once at most.
once :
    (a m : String) (ps : List Pair)
    → length (rows_where (same_pair (record { item = a; manager = m })) (distinct ps))
      ≡ (if has a m ps then 1 else 0)
unfolding distinct
once a m [] = refl
once a m (p ∷ ps) =
    let q : Pair = record { item = a; manager = m } in
    elim (Bool-cases (any (same_pair p) ps)) [
      | inl yes_ ↦ elim (Bool-cases (same_pair q p)) [
        | inl same ↦
            let seen : has a m ps ≡ true =
              ap (λ r. any (same_pair r) ps) (same_pair_eq q p same) ∙ yes_ in
            rw (yes_, same) (once a m ps ∙ rw seen refl)
        | inr other ↦ rw (yes_, other) (once a m ps)
      ]
      | inr no_ ↦ elim (Bool-cases (same_pair q p)) [
        | inl same ↦
            let seen : has a m ps ≡ false =
              ap (λ r. any (same_pair r) ps) (same_pair_eq q p same) ∙ no_ in
            rw (no_, same) (ap (λ n. suc n) (once a m ps ∙ rw seen refl))
        | inr other ↦ rw (no_, other) (once a m ps)
      ]
    ]

count_joined_lem :
    (m : String) (ps : List Pair) (ts : List ServiceTicket)
    → count_joined m (distinct ps) ts
      ≡ length (rows_where (λ (t : ServiceTicket). has t.service_id m (distinct ps)) ts)
unfolding count_joined
count_joined_lem m ps [] = refl
count_joined_lem m ps (t ∷ ts) =
    ground (arith, once t.service_id m ps, has-distinct t.service_id m ps, count_joined_lem m ps ts)

-- The total that a manager's service tickets are listed with is the number of the tickets of the services
-- in his view, whatever page is asked for.
pub total-get_for_manager_sql :
    (db : Org) (m : String) (offset limit : ℕ)
    → (get_for_manager_sql db m offset limit).total ≡ length (of_managed db m)
unfolding get_for_manager_sql counted service_manager_vw manager_vw
total-get_for_manager_sql db m offset limit =
    total_is _
      (page ticket_id opened offset limit (latest_first ticket_id opened (of_managed db m)))
    ∙ count_joined_lem m
        (for_each (λ (x : Item). to_managers db.managers (item_id x) (service_links db x))
          db.services)
        db.service_tickets
  where
    total_is : (n : ℕ) (rows : List ServiceTicket) → (counted ticket_id opened n rows).total ≡ n
    total_is n rows = ground arith

none_managed :
    (m : String) (db : Org) (ts : List ServiceTicket)
    → any (λ (ms : Link). str_eq ms.left m) db.manager_services ≡ false
    → rows_where (λ (t : ServiceTicket). has t.service_id m (service_manager_vw db)) ts ≡ []
none_managed m db [] h = refl
none_managed m db (t ∷ ts) h = ground (
  arith,
  service_access t.service_id m db,
  linked_any t.service_id m db.manager_services,
  none_managed m db ts h,
)
  where
    linked_any :
        (s m : String) (ls : List Link)
        → linked m s ls ≡ true
        → any (λ (ms : Link). str_eq ms.left m) ls ≡ true
    linked_any s m [] e = cc
    linked_any s m (l ∷ ls) e = ground (arith, linked_any s m ls)

-- A manager without any service is listed no service tickets, and still every ticket of the table is
-- returned to him by its id, as it is to the server itself.
pub tickets_unguarded :
    (u : CurrentUser) (db : Org) (offset limit : ℕ) (key : String)
    → u.account_type ≡ "manager"
    → any (λ (ms : Link). str_eq ms.left u.account_id) db.manager_services ≡ false
    → ((list_service_tickets (some u) db offset limit).total ≡ 0)
      × (get_service_ticket (some u) db key ≡ get_service_ticket none db key)
unfolding list_service_tickets list_as get_service_ticket
tickets_unguarded u db offset limit key is_manager no_service = (
  rw (ap (λ t. str_eq t "administrator") is_manager, ap (λ t. str_eq t "manager") is_manager)
      (total-get_for_manager_sql db u.account_id offset limit
        ∙ ap length (none_managed u.account_id db db.service_tickets no_service)),
  refl,
)
