-- ===== src/Webhook/Events.antt =====
-- Which endpoints an event reaches (app/domain/webhook/service.py).
use iot_server.Prelude.{
  ◌≡◌, refl, sym, ap, ◌∙◌, arith, String, true, false, Option, none, some, List, [], ◌∷◌, str_eq,
  eq_iff, eq_refl, ◌&&◌, ◌||◌, if◌then◌else◌, Bool-cases, and_true, inl, inr,
}
use mathlib.Core.Path.{subst}
use iot_server.Http.{ok}
use iot_server.Webhook.{
  WebhookEndpoint, Texts, is_in, has_comma, any_comma, valid_events, all_valid,
  validated_event_types, register, get_by_event, list_for_owner, delete, delete_found, get_webhook,
  deactivate,
}

plain_event : (e : String) → is_in e valid_events ≡ true → has_comma e ≡ false
unfolding is_in
plain_event e h = elim (Bool-cases (str_eq e "device.telemetry")) [
  | inl yes_ ↦ ap has_comma ((eq_iff e _).0 yes_) ∙ unfold has_comma in refl
  | inr a ↦ elim (Bool-cases (str_eq e "service.state_changed")) [
    | inl yes_ ↦ ap has_comma ((eq_iff e _).0 yes_) ∙ unfold has_comma in refl
    | inr b ↦ elim (Bool-cases (str_eq e "ticket.created")) [
      | inl yes_ ↦ ap has_comma ((eq_iff e _).0 yes_) ∙ unfold has_comma in refl
      | inr c ↦
          let last : str_eq e "payment.completed" ≡ true = ground arith in
          ap has_comma ((eq_iff e _).0 last) ∙ unfold has_comma in refl
    ]
  ]
]

-- The members of a list decide whether it has a comma and a bad event.
is_in_valid :
    (e : String) (xs : List String)
    → all_valid xs ≡ true
    → is_in e xs ≡ true
    → is_in e valid_events ≡ true
unfolding all_valid is_in
is_in_valid e [] a i = cc
is_in_valid e (x ∷ xs) a i =
    let (first, rest) = and_true (is_in x valid_events) _ a in
    elim (Bool-cases (str_eq e x)) [
      | inl yes_ ↦ subst (λ y. is_in y valid_events ≡ true) (sym ((eq_iff e x).0 yes_)) first
      | inr no_ ↦ is_in_valid e xs rest (rw no_ at i)
    ]

plain_members :
    (xs ys : List String)
    → all_valid xs ≡ true
    → ((e : String) → is_in e ys ≡ true → is_in e xs ≡ true)
    → any_comma ys ≡ false
unfolding any_comma is_in
plain_members xs [] a sub = refl
plain_members xs (y ∷ ys) a sub =
    let here : is_in y xs ≡ true = sub y (rw (eq_refl y) refl) in
    rw
      (
        plain_event y (is_in_valid y xs a here),
        plain_members xs ys a (λ e h. sub e (rw h (ground arith))),
      )
      refl

split-sorted :
    (t : Texts) (x : String) (xs ys : List String)
    → all_valid (x ∷ xs) ≡ true
    → t.sorted_set (x ∷ xs) ≡ ys
    → t.split (t.join ys) ≡ ys
unfolding is_in
split-sorted t x xs [] a e =
    let bad : true ≡ false =
      sym (ap (λ b. b || is_in x xs) (eq_refl x))
      ∙ sym (t.is_in-sorted_set x (x ∷ xs))
      ∙ ap (is_in x) e in
    cc
split-sorted t x xs (y ∷ ys) a e = t.split-join y ys (
    plain_members (x ∷ xs) (y ∷ ys) a
      (λ k h. sym (t.is_in-sorted_set k (x ∷ xs)) ∙ ap (is_in k) e ∙ h))

-- What was registered for known events is found for exactly those: an event in the list finds the new
-- endpoint besides the others, any other event the others alone.
pub get_by_event-register :
    (t : Texts) (event id secret owner_id url x text : String) (xs : List String)
    (ws : List WebhookEndpoint)
    → all_valid (x ∷ xs) ≡ true
    → validated_event_types t (x ∷ xs) ≡ ok text
    → get_by_event t event (register id secret owner_id url text ws) ≡ (
        if is_in event (x ∷ xs)
        then record {
          id = id;
          owner_id = owner_id;
          url = url;
          event_types = text;
          secret = secret;
          is_active = true;
        }
          ∷ get_by_event t event ws
        else get_by_event t event ws)
unfolding get_by_event register validated_event_types
get_by_event-register t event id secret owner_id url x text xs ws a e =
    let made : ok (t.join (t.sorted_set (x ∷ xs))) ≡ ok text = rw a at e in
    let same : text ≡ t.join (t.sorted_set (x ∷ xs)) = cc in
    rw same (
      rw (split-sorted t x xs (t.sorted_set (x ∷ xs)) a refl, t.is_in-sorted_set event (x ∷ xs))
        refl)

others_kept :
    (id other : String) (ws : List WebhookEndpoint) (v : WebhookEndpoint)
    → get_webhook id ws ≡ some v
    → str_eq v.owner_id other ≡ false
    → list_for_owner other (deactivate id ws) ≡ list_for_owner other ws
unfolding get_webhook deactivate list_for_owner
others_kept id other [] v e n = refl
others_kept id other (w ∷ ws) v e n = elim (Bool-cases (str_eq w.id id)) [
  | inl yes_ ↦
      let same : some w ≡ some v = rw yes_ at e in
      let same' : v ≡ w = cc in
      let m : str_eq w.owner_id other ≡ false =
        subst (λ y. str_eq y.owner_id other ≡ false) same' n in
      rw yes_ (rw m refl)
  | inr no_ ↦ rw no_ (
      ap (λ rest. if str_eq w.owner_id other && w.is_active then w ∷ rest else rest)
        (others_kept id other ws v (rw no_ at e) n))
]

delete_found_others :
    (found : Option WebhookEndpoint) (webhook_id owner_id other : String)
    (ws : List WebhookEndpoint)
    → get_webhook webhook_id ws ≡ found
    → str_eq owner_id other ≡ false
    → list_for_owner other (delete_found found webhook_id owner_id ws) ≡ list_for_owner other ws
unfolding delete_found
delete_found_others none webhook_id owner_id other ws e n = refl
delete_found_others (some w) webhook_id owner_id other ws e n =
    elim (Bool-cases (str_eq w.owner_id owner_id)) [
      | inl yes_ ↦ rw yes_ (
          others_kept webhook_id other ws w e
            (ap (λ o. str_eq o other) ((eq_iff w.owner_id owner_id).0 yes_) ∙ n))
      | inr no_ ↦ rw no_ refl
    ]

-- Removing an endpoint never changes what other owners have.
pub list_for_owner-delete :
    (webhook_id owner_id other : String) (ws : List WebhookEndpoint)
    → str_eq owner_id other ≡ false
    → list_for_owner other (delete webhook_id owner_id ws) ≡ list_for_owner other ws
unfolding delete
list_for_owner-delete webhook_id owner_id other ws n =
    delete_found_others (get_webhook webhook_id ws) webhook_id owner_id other ws refl n
