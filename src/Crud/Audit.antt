-- ===== src/Crud/Audit.antt =====
-- The audit log of the base service.
use iot_server.Prelude.{
  ℕ, ◌≡◌, refl, sym, ◌∙◌, ap, arith, String, Bool, Option, none, some, List, [], ◌∷◌, map, str_eq,
  eq_iff, eq_refl, Bool-cases, inl, inr, ◌&&◌, not,
}
use iot_server.Http.{Result, ok, err, not_found}
use iot_server.Policy.{CurrentUser}
use iot_server.Crud
use iot_server.Crud.{Model, Db, AuditLog, content}
use iot_server.Crud.Service.{
  Change, Request, retrieve, create, update, delete, Answer, entity, no_content, respond, serve,
  get_by_id, found, of_entity, of_done, create_entity, update_entity, delete_entity, update_found,
  delete_found, log_created, log_updated, log_deleted, log_audit, entry_of, changes, is_in,
}
use iot_server.Crud.Refinement.{id-get}

module _ {T V C P : Type 0} (m : Model T V C P) (old new : T) (excluded : List String) where
  abbrev pub keys_of : List Change → List String
  keys_of cs = map (λ (c : Change). c.key) cs

  -- Whether an update is to be recorded for the field `key`.
  abbrev pub is_recorded : String → Bool
  is_recorded key = not (is_in key excluded) && not (m.same (m.value old key) (m.value new key))

  -- The recorded changes of an update are for exactly the fields that are not excluded and whose value
  -- is another than before.
  pub changes_lem :
      (key : String) (fields : List String)
      → is_in key (keys_of (changes m excluded old new fields))
        ≡ is_in key fields && is_recorded key
  unfolding changes is_in
  changes_lem key [] = refl
  changes_lem key (k ∷ ks) = elim (Bool-cases (str_eq key k)) [
    | inl yes_ ↦ rw (yes_, (eq_iff key k).0 yes_) (ground (arith, changes_lem k ks, eq_refl k))
    | inr no_ ↦ rw no_ (ground (arith, changes_lem key ks))
  ]

module _ {T V C P : Type 0} (m : Model T V C P) (entity_name : String) (excluded : List String)
    (dumps : List Change → String) (user : Option CurrentUser) (visible : String → Bool) where
  abbrev pub bare : AuditLog → AuditLog
  bare e = record e { details = none }

  abbrev stamped : Option CurrentUser → String → String → List AuditLog → List AuditLog
  stamped none action id es = es
  stamped (some u) action id es =
      record {
        account_id = u.account_id;
        account_type = u.account_type;
        action = action;
        resource_type = entity_name;
        resource_id = id;
        details = none;
      }
      ∷ es

  -- The entry that a request with its answer is to leave, if any.
  abbrev pub noted : Request C P → Answer T → List AuditLog → List AuditLog
  noted (create payload new) (entity t) es = stamped user "create" new es
  noted (update id now payload) (entity t) es = stamped user "update" id es
  noted (delete id) no_content es = stamped user "delete" id es
  noted _ _ es = es

  pub trail : List (Request C P) → List (Answer T) → List AuditLog → List AuditLog
  trail [] as_ es = es
  trail (q ∷ qs) [] es = es
  trail (q ∷ qs) (a ∷ as_) es = trail qs as_ (noted q a es)

  audit-log :
      (u : Option CurrentUser) (action id : String) (details : Option String) (db : Db T)
      → map bare (log_audit m entity_name excluded dumps user visible u action id details db).audit
        ≡ stamped u action id (map bare db.audit)
  unfolding log_audit Crud.log entry_of
  audit-log none action id details db = refl
  audit-log (some u) action id details db = refl

  id-found :
      (id : String) (rows : List T) (o : Option T) {t : T}
      → o ≡ Crud.get_by_id m id rows
      → found m entity_name excluded dumps user visible o ≡ ok t
      → m.id t ≡ id
  unfolding found
  id-found id rows none e h = cc
  id-found id rows (some u) {t} e h = elim (Bool-cases (visible (m.id u))) [
    | inl yes_ ↦ let same : u ≡ t = cc (rw yes_ at h) in rw (← same) (id-get m id rows (sym e))
    | inr no_ ↦ let bad : err (not_found entity_name) ≡ ok t = rw no_ at h in cc
  ]

  created-audited :
      (payload : C) (new : String) (o : Option T) (db : Db T)
      → let r =
          log_created m entity_name excluded dumps user visible
            (Crud.insert m o (m.build payload new) db) in
        map bare r.1.audit ≡ noted (create payload new) (of_entity r.0) (map bare db.audit)
  unfolding log_created Crud.insert of_entity
  created-audited payload new none db =
      elim (Bool-cases (m.refuses_insert (content m db) (m.build payload new))) [
        | inl yes_ ↦ rw yes_ refl
        | inr no_ ↦ rw no_ (
            audit-log user "create" _ none (record db { rows = m.build payload new ∷ db.rows })
            ∙ ap (λ id. stamped user "create" id (map bare db.audit)) (m.id-build payload new))
      ]
  created-audited payload new (some old) db = refl

  updated-audited :
      (id : String) (now : ℕ) (payload : P) (r : Result T) (db : Db T)
      → ((t : T) → r ≡ ok t → m.id t ≡ id)
      → let c = update_found m entity_name excluded dumps user visible now payload r db in
        map bare c.1.audit ≡ noted (update id now payload) (of_entity c.0) (map bare db.audit)
  unfolding update_found log_updated Crud.update of_entity
  updated-audited id now payload (err e) db named = refl
  updated-audited id now payload (ok old) db named =
      let same = m.id-touch now _ ∙ m.id-sqlmodel_update payload old ∙ named old refl in
      elim (Bool-cases
        (m.refuses_update (content m db) (m.touch now (m.sqlmodel_update payload old)))) [
          | inl yes_ ↦ rw yes_ refl
          | inr no_ ↦ rw no_ (
              audit-log user "update" _ _ _
              ∙ ap (λ id. stamped user "update" id (map bare db.audit)) same)
        ]

  deleted-audited :
      (id : String) (r : Result T) (db : Db T)
      → ((t : T) → r ≡ ok t → m.id t ≡ id)
      → let c = delete_found m entity_name excluded dumps user visible r db in
        map bare c.1.audit ≡ noted (delete id) (of_done c.0) (map bare db.audit)
  unfolding delete_found log_deleted Crud.delete of_done
  deleted-audited id (err e) db named = refl
  deleted-audited id (ok t) db named = elim (Bool-cases (m.refuses_delete (content m db) t)) [
    | inl yes_ ↦ rw yes_ refl
    | inr no_ ↦ rw no_ (
        audit-log user "delete" _ _ _
        ∙ ap (λ id. stamped user "delete" id (map bare db.audit)) (named t refl))
  ]

  -- The audit log of a request, by its answer.
  audited :
      (q : Request C P) (db : Db T)
      → let r = respond m entity_name excluded dumps user visible q db in
        map bare r.1.audit ≡ noted q r.0 (map bare db.audit)
  unfolding respond get_by_id create_entity Crud.create update_entity delete_entity
  audited (retrieve id) db = refl
  audited (create payload new) db = created-audited payload new _ db
  audited (update id now payload) db =
      updated-audited id now payload _ db λ t h. id-found id db.rows _ refl h
  audited (delete id) db = deleted-audited id _ db λ t h. id-found id db.rows _ refl h

  -- With a current user in the context, the audit log after requests to a service has exactly one new entry for each creation, update and
  -- removal that was answered with success, in their order, with the user and the id of the row, and
  -- none for the others, among them those that a constraint of the database refuses; without a current
  -- user it stays as it was.
  pub serve_audited :
      (qs : List (Request C P)) (db : Db T)
      → let r = serve m entity_name excluded dumps user visible qs db in
        map bare r.1.audit ≡ trail qs r.0 (map bare db.audit)
  unfolding serve trail
  serve_audited [] db = refl
  serve_audited (q ∷ qs) db =
      let next = (respond m entity_name excluded dumps user visible q db).1 in
      serve_audited qs next
      ∙ ap (trail qs (serve m entity_name excluded dumps user visible qs next).0) (audited q db)
