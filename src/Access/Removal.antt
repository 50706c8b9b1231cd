-- ===== src/Access/Removal.antt =====
-- What `unassign_manager` of app/domain/service/controller.py takes away.
use iot_server.Prelude.{
  ◌≡◌, refl, sym, ◌∙◌, ap, arith, String, true, false, Option, none, some, List, [], ◌∷◌, str_eq,
  eq_iff, eq_refl, ◌&&◌, not, if◌then◌else◌, Bool-cases, Option-cases, and_true, inl, inr,
}
use iot_server.Http.{ok, err, Exception, http, not_found}
use iot_server.Policy.{CurrentUser}
use iot_server.Access.{Link, Item, Org, item_id, any}
use iot_server.Access.Counting.{unique}
use iot_server.Access.Listing.{get_service, shown, created}
use iot_server.Access.Assign.{
  linked, first_link, delete_link, unassign_link, unassign_found, unassign_manager, distinct_links,
}
use iot_server.Access.Effects.{get_service_after}

delete_link-absent :
    (k : String) (ls : List Link)
    → any (λ (l : Link). str_eq k l.id) ls ≡ false
    → delete_link k ls ≡ ls
unfolding delete_link
delete_link-absent k [] h = refl
delete_link-absent k (l ∷ ls) h =
    ground (arith, eq_iff k l.id, eq_iff l.id k, delete_link-absent k ls)

delete_link-here :
    (l : Link) (ls : List Link)
    → any (λ (r : Link). str_eq l.id r.id) ls ≡ false
    → delete_link l.id (l ∷ ls) ≡ ls
delete_link-here l ls h = unfold delete_link in rw (eq_refl l.id) (delete_link-absent l.id ls h)

delete_link-there :
    (k : String) (l : Link) (ls : List Link)
    → str_eq l.id k ≡ false
    → delete_link k (l ∷ ls) ≡ l ∷ delete_link k ls
unfolding delete_link
delete_link-there k l ls h = rw h refl

first_link-id :
    (left right : String) (ls : List Link) {row : Link}
    → first_link left right ls ≡ some row
    → any (λ (l : Link). str_eq row.id l.id) ls ≡ true
unfolding first_link
first_link-id left right [] h = cc
first_link-id left right (l ∷ ls) {row} h =
    elim (Bool-cases (str_eq l.left left && str_eq l.right right)) [
      | inl yes_ ↦ let e : l ≡ row = cc (rw yes_ at h) in rw (← e) (rw (eq_refl l.id) refl)
      | inr no_ ↦ rw (first_link-id left right ls (rw no_ at h)) (ground arith)
    ]

linked-delete_link :
    (left right left' right' : String) (ls : List Link) {row : Link}
    → unique (λ (l : Link). l.id) ls ≡ true
    → distinct_links ls ≡ true
    → first_link left right ls ≡ some row
    → linked left' right' (delete_link row.id ls)
      ≡ linked left' right' ls && not (str_eq left' left && str_eq right' right)
unfolding first_link
linked-delete_link left right left' right' [] u d h = cc
linked-delete_link left right left' right' (l ∷ ls) {row} u d h =
    let fresh : any (λ (r : Link). str_eq l.id r.id) ls ≡ false = ground arith in
    elim (Bool-cases (str_eq l.left left && str_eq l.right right)) [
      | inl yes_ ↦
          let e : l ≡ row = cc (rw yes_ at h) in
          let is_left = (eq_iff l.left left).0 (and_true (str_eq l.left left) _ yes_).0 in
          let is_right = (eq_iff l.right right).0 (and_true (str_eq l.left left) _ yes_).1 in
          let once : linked left right ls ≡ false = rw (← is_left, ← is_right) (ground arith) in
          rw (← e) (
            ap (linked left' right') (delete_link-here l ls fresh)
            ∙ elim (Bool-cases (str_eq left' left && str_eq right' right)) [
              | inl same ↦
                  let l_is = (eq_iff left' left).0 (and_true (str_eq left' left) _ same).0 in
                  let r_is = (eq_iff right' right).0 (and_true (str_eq left' left) _ same).1 in
                  rw same (rw (l_is, r_is, once) (ground arith))
              | inr other ↦ rw other (
                  ground (
                    arith,
                    eq_iff left' left,
                    eq_iff right' right,
                    eq_iff l.left left',
                    eq_iff l.right right',
                  ))
            ])
      | inr no_ ↦
          let rest : first_link left right ls ≡ some row = rw no_ at h in
          let kept : str_eq l.id row.id ≡ false = elim (Bool-cases (str_eq l.id row.id)) [
            | inl same ↦
                let bad : true ≡ false =
                  sym (first_link-id left right ls rest)
                  ∙ (ap (λ k. any (λ (r : Link). str_eq k r.id) ls)
                        (sym ((eq_iff l.id row.id).0 same))
                      ∙ fresh) in
                cc
            | inr other ↦ other
          ] in
          rw (delete_link-there row.id l ls kept) (
            ground (
              arith,
              eq_iff left' left,
              eq_iff right' right,
              eq_iff l.left left',
              eq_iff l.right right',
              eq_iff l.left left,
              eq_iff l.right right,
              linked-delete_link left right left' right' ls (ground arith) (ground arith) rest,
            ))
    ]

unassign_link-ok :
    (left right : String) (absent : Exception) (ls : List Link)
    → (unassign_link left right absent ls).0 ≡ ok tt
    → (row : Link) × (first_link left right ls ≡ some row)
      × ((unassign_link left right absent ls).1 ≡ delete_link row.id ls)
unfolding unassign_link unassign_found
unassign_link-ok left right absent ls h = elim (Option-cases (first_link left right ls)) [
  | inl none_ ↦ let bad : err absent ≡ ok tt = rw none_ at h in cc
  | inr (row, some_) ↦ (row, some_, rw some_ refl)
]

shown-false :
    (o : Option Item) → shown item_id created "Service" false o ≡ err (not_found "Service")
unfolding shown
shown-false none = refl
shown-false (some x) = refl

-- After a manager was taken from a service, he is answered 404 for it, and each other service is
-- answered as before; the rows that relate managers and services have unique ids and pairs.
pub get_service-unassign_manager :
    (u : CurrentUser) (s m : String) (db : Org)
    → u.account_type ≡ "manager"
    → unique (λ (l : Link). l.id) db.manager_services ≡ true
    → distinct_links db.manager_services ≡ true
    → (unassign_manager s m db).0 ≡ ok tt
    → (k : String)
    → get_service (some u) (unassign_manager s m db).1 k ≡ (
        if str_eq u.account_id m && str_eq k s
        then err (not_found "Service")
        else get_service (some u) db k)
unfolding unassign_manager
get_service-unassign_manager u s m db is_manager ids pairs h k =
    let (row, is_row, e) =
      unassign_link-ok m s (http 404 "Manager not assigned to this service") db.manager_services
        h in
    let after = linked-delete_link m s u.account_id k db.manager_services ids pairs is_row in
    rw e (elim (Bool-cases (str_eq u.account_id m && str_eq k s)) [
      | inl yes_ ↦ rw yes_ (
          get_service_after u is_manager db (delete_link row.id db.manager_services) k false
            (rw (after, yes_) (ground arith))
          ∙ shown-false _)
      | inr no_ ↦ rw no_ (
          get_service_after u is_manager db (delete_link row.id db.manager_services) k _
            (rw (after, no_) (ground arith))
          ∙ sym (get_service_after u is_manager db db.manager_services k _ refl))
    ])
