-- ===== src/Crud/Refinement.antt =====
-- The base service against its contract: a map from ids to rows.
use iot_server.Prelude.{
  ℕ, ◌≡◌, refl, sym, ◌∙◌, ap, fun_ext, arith, String, Bool, Option, none, some, List, [], ◌∷◌,
  str_eq, eq_iff, if◌then◌else◌, Bool-cases, inl, inr,
}
use iot_server.Http.{Result, ok, err, not_found}
use iot_server.Policy.{CurrentUser}
use iot_server.Crud
use iot_server.Crud.{Model, Db, content, integrity_error}
use iot_server.Crud.Service.{
  Change, Request, retrieve, create, update, delete, Answer, entity, no_content, refused, respond,
  serve, get_by_id, found, of_entity, of_done, create_entity, update_entity, delete_entity,
  update_found, delete_found, log_created, log_updated, log_deleted, log_audit,
}

module _ {T V C P : Type 0} (m : Model T V C P) where
  -- A map, written at one id.
  abbrev pub write : String → Option T → (String → Option T) → String → Option T
  write id entry f j = if str_eq id j then entry else f j

  abbrev overwritten : T → Option T → Option T
  overwritten t none = none
  overwritten t (some old) = some t

  get-replace :
      (t : T) (rows : List T) (j : String)
      → Crud.get_by_id m j (Crud.replace m t rows) ≡ (
          if str_eq (m.id t) j
          then overwritten t (Crud.get_by_id m (m.id t) rows)
          else Crud.get_by_id m j rows)
  unfolding Crud.get_by_id Crud.replace
  get-replace t [] j = ground arith
  get-replace t (u ∷ us) j =
      ground
        (arith, eq_iff (m.id u) (m.id t), eq_iff (m.id u) j, eq_iff (m.id t) j, get-replace t us j)

  -- A row that was found has the id that it was looked up by.
  pub id-get :
      (id : String) (rows : List T) {t : T} → Crud.get_by_id m id rows ≡ some t → m.id t ≡ id
  unfolding Crud.get_by_id
  id-get id [] h = cc
  id-get id (u ∷ us) {t} h = elim (Bool-cases (str_eq (m.id u) id)) [
    | inl yes_ ↦ let e : u ≡ t = cc (rw yes_ at h) in ap m.id (sym e) ∙ (eq_iff (m.id u) id).0 yes_
    | inr no_ ↦ id-get id us (rw no_ at h)
  ]

  get-remove :
      (id : String) (rows : List T) (j : String)
      → Crud.get_by_id m j (Crud.remove m id rows)
        ≡ (if str_eq id j then none else Crud.get_by_id m j rows)
  unfolding Crud.get_by_id Crud.remove
  get-remove id [] j = ground arith
  get-remove id (u ∷ us) j =
      ground (arith, eq_iff (m.id u) id, eq_iff (m.id u) j, eq_iff id j, get-remove id us j)

module _ {T V C P : Type 0} (m : Model T V C P) (entity_name : String) (excluded : List String)
    (dumps : List Change → String) (user : Option CurrentUser) (visible : String → Bool) where
  abbrev or_missing : Option T → Result T
  or_missing none = err (not_found entity_name)
  or_missing (some t) = ok t

  -- What a retrieval answers: the row of the map, where the user may see the id.
  abbrev pub looked_up : String → (String → Option T) → Result T
  looked_up id f = if visible id then or_missing (f id) else err (not_found entity_name)

  abbrev pub create_in : T → Option T → (String → Option T) → Answer T × (String → Option T)
  create_in t none f =
      if m.refuses_insert f t
      then (refused integrity_error, f)
      else (entity t, write m (m.id t) (some t) f)
  create_in t (some old) f = (refused integrity_error, f)

  abbrev pub update_in : ℕ → P → Result T → (String → Option T) → Answer T × (String → Option T)
  update_in now payload (err e) f = (refused e, f)
  update_in now payload (ok old) f =
      let t = m.touch now (m.sqlmodel_update payload old) in
      if m.refuses_update f t
      then (refused integrity_error, f)
      else (entity t, write m (m.id old) (some t) f)

  abbrev pub delete_in : Result T → (String → Option T) → Answer T × (String → Option T)
  delete_in (err e) f = (refused e, f)
  delete_in (ok t) f =
      if m.refuses_delete f t
      then (refused integrity_error, f)
      else (no_content, write m (m.id t) none f)

  -- One request, on a map.
  abbrev pub ask : Request C P → (String → Option T) → Answer T × (String → Option T)
  ask (retrieve id) f = (of_entity (looked_up id f), f)
  ask (create payload new) f = create_in (m.build payload new) (f (m.id (m.build payload new))) f
  ask (update id now payload) f = update_in now payload (looked_up id f) f
  ask (delete id) f = delete_in (looked_up id f) f

  pub replay : List (Request C P) → (String → Option T) → List (Answer T) × (String → Option T)
  replay [] f = ([], f)
  replay (q ∷ qs) f = let (a, f') = ask q f in let (rest, end) = replay qs f' in (a ∷ rest, end)

  rows-log :
      (u : Option CurrentUser) (action id : String) (details : Option String) (db : Db T)
      → (log_audit m entity_name excluded dumps user visible u action id details db).rows ≡ db.rows
  unfolding log_audit Crud.log
  rows-log none action id details db = refl
  rows-log (some u) action id details db = refl

  content-log :
      (u : Option CurrentUser) (action id : String) (details : Option String) (db : Db T)
      → content m (log_audit m entity_name excluded dumps user visible u action id details db)
        ≡ content m db
  content-log u action id details db =
      ap (λ rows id. Crud.get_by_id m id rows) (rows-log u action id details db)

  found_lem :
      (id : String) (rows : List T) (o : Option T)
      → o ≡ Crud.get_by_id m id rows
      → found m entity_name excluded dumps user visible o
        ≡ (if visible id then or_missing o else err (not_found entity_name))
  unfolding found
  found_lem id rows none e = ground arith
  found_lem id rows (some t) e = rw (id-get m id rows (sym e)) refl

  found-ok :
      (id : String) (rows : List T) (o : Option T) {t : T}
      → o ≡ Crud.get_by_id m id rows
      → found m entity_name excluded dumps user visible o ≡ ok t
      → Crud.get_by_id m (m.id t) rows ≡ some t
  unfolding found
  found-ok id rows none e h = cc
  found-ok id rows (some u) {t} e h = elim (Bool-cases (visible (m.id u))) [
    | inl yes_ ↦
        let same : u ≡ t = cc (rw yes_ at h) in rw (← same) (rw (id-get m id rows (sym e)) (sym e))
    | inr no_ ↦ let bad : err (not_found entity_name) ≡ ok t = rw no_ at h in cc
  ]

  create_refines :
      (t : T) (o : Option T) (db : Db T)
      → let r = log_created m entity_name excluded dumps user visible (Crud.insert m o t db) in
        let a = create_in t o (content m db) in (of_entity r.0 ≡ a.0) × (content m r.1 ≡ a.1)
  unfolding log_created Crud.insert of_entity
  create_refines t none db = elim (Bool-cases (m.refuses_insert (content m db) t)) [
    | inl yes_ ↦ rw yes_ (refl, refl)
    | inr no_ ↦ rw no_ (
      refl,
      content-log user "create" (m.id t) none (record db { rows = t ∷ db.rows })
          ∙ unfold Crud.get_by_id in refl,
    )
  ]
  create_refines t (some old) db = (refl, refl)

  update_refines :
      (now : ℕ) (payload : P) (r : Result T) (db : Db T)
      → ((t : T) → r ≡ ok t → content m db (m.id t) ≡ some t)
      → let c = update_found m entity_name excluded dumps user visible now payload r db in
        let a = update_in now payload r (content m db) in
        (of_entity c.0 ≡ a.0) × (content m c.1 ≡ a.1)
  unfolding update_found log_updated Crud.update of_entity
  update_refines now payload (err e) db held = (refl, refl)
  update_refines now payload (ok old) db held =
      let t = m.touch now (m.sqlmodel_update payload old) in
      let same : m.id t ≡ m.id old = m.id-touch now _ ∙ m.id-sqlmodel_update payload old in
      let kept = held old refl in
      elim (Bool-cases (m.refuses_update (content m db) t)) [
        | inl yes_ ↦ rw yes_ (refl, refl)
        | inr no_ ↦ rw no_ (
          refl,
          content-log user "update" _ _ _
              ∙ fun_ext λ j. get-replace m t db.rows j ∙ rw (same, kept) refl,
        )
      ]

  delete_refines :
      (r : Result T) (db : Db T)
      → let c = delete_found m entity_name excluded dumps user visible r db in
        let a = delete_in r (content m db) in (of_done c.0 ≡ a.0) × (content m c.1 ≡ a.1)
  unfolding delete_found log_deleted Crud.delete of_done
  delete_refines (err e) db = (refl, refl)
  delete_refines (ok t) db = elim (Bool-cases (m.refuses_delete (content m db) t)) [
    | inl yes_ ↦ rw yes_ (refl, refl)
    | inr no_ ↦
        rw no_
          (refl, content-log user "delete" _ _ _ ∙ fun_ext λ j. get-remove m (m.id t) db.rows j)
  ]

  -- A request answers as the map does, and leaves what the map then holds.
  respond_refines :
      (q : Request C P) (db : Db T)
      → let r = respond m entity_name excluded dumps user visible q db in
        let a = ask q (content m db) in (r.0 ≡ a.0) × (content m r.1 ≡ a.1)
  unfolding respond get_by_id create_entity Crud.create update_entity delete_entity
  respond_refines (retrieve id) db = (ap of_entity (found_lem id db.rows _ refl), refl)
  respond_refines (create payload new) db = create_refines (m.build payload new) _ db
  respond_refines (update id now payload) db =
      rw (← (found_lem id db.rows _ refl))
        (update_refines now payload _ db λ t h. found-ok id db.rows _ refl h)
  respond_refines (delete id) db = rw (← (found_lem id db.rows _ refl)) (delete_refines _ db)

  -- The requests to a service, one after the other, get the answers of a map from ids to rows that refuses the
  -- changes that the constraints of the database refuse, and the table then holds what the map holds.
  pub serve_refines :
      (qs : List (Request C P)) (db : Db T)
      → let r = serve m entity_name excluded dumps user visible qs db in
        let a = replay qs (content m db) in (r.0 ≡ a.0) × (content m r.1 ≡ a.1)
  unfolding serve replay
  serve_refines [] db = (refl, refl)
  serve_refines (q ∷ qs) db =
      let here = respond_refines q db in
      let next = (respond m entity_name excluded dumps user visible q db).1 in
      let rest = serve_refines qs next in
      (
        ap (λ a. a ∷ (serve m entity_name excluded dumps user visible qs next).0) here.0
            ∙ ap (λ as_. (ask q (content m db)).0 ∷ as_)
                (rest.0 ∙ ap (λ f. (replay qs f).0) here.1),
        rest.1 ∙ ap (λ f. (replay qs f).1) here.1,
      )
