-- ===== src/Personal/Stored.antt =====
-- What creating and deleting a person of app/domain/personal_data/service.py leave in the tables.
use iot_server.Prelude.{
  ◌≡◌, refl, sym, ◌∙◌, ap, arith, String, Bool, true, false, Option, none, some, List, [], ◌∷◌,
  str_eq, eq_iff, eq_refl, ◌||◌, Bool-cases, inl, inr,
}
use iot_server.Http.{ok, err, already_exists}
use iot_server.Personal.Accounts.{
  NonCriticalRow, SensitiveRow, Person, People, PersonalDataCreate, Ids, any, email_exists,
  same_value, clashes, integrity_error, insert_non_critical, insert_sensitive, insert_person,
  non_critical_row, sensitive_row, person_row, create_entity, get_person, get_sensitive,
  rows_without, delete_rows, delete_with, delete_found, delete_entity,
}

without_absent {ℓ} :
    {A : Type ℓ} (p q : A → Bool) (xs : List A)
    → ((x : A) → p x ≡ true → q x ≡ true)
    → any q xs ≡ false
    → rows_without p xs ≡ xs
without_absent p q [] within h = refl
without_absent p q (x ∷ xs) within h = elim (Bool-cases (p x)) [
  | inl yes_ ↦ let bad : true ≡ false = ground (arith, within x yes_) in cc
  | inr no_ ↦ rw no_ (ap (λ ys. x ∷ ys) (without_absent p q xs within (ground arith)))
]

module _ (payload : PersonalDataCreate) (ids : Ids) (db : People) where
  abbrev with_non_critical : People
  with_non_critical = record db { non_critical = non_critical_row payload ids ∷ db.non_critical }

  abbrev with_sensitive : People
  with_sensitive = record with_non_critical { sensitive = sensitive_row payload ids ∷ db.sensitive }

  abbrev same_nc : NonCriticalRow → Bool
  same_nc s = str_eq s.id ids.non_critical

  abbrev same_person : Person → Bool
  same_person q = str_eq q.id ids.person || str_eq q.sensitive_data_id ids.sensitive

  created-ok :
      {p : Person}
      → (create_entity payload ids db).0 ≡ ok p
      → (any same_nc db.non_critical ≡ false)
        × (any (clashes (sensitive_row payload ids)) db.sensitive ≡ false)
        × (any same_person db.persons ≡ false)
        × (create_entity payload ids db ≡ (
          ok (person_row ids),
          record with_sensitive { persons = person_row ids ∷ db.persons },
        ))
  unfolding create_entity insert_non_critical insert_sensitive insert_person
  created-ok {p} h = elim (Bool-cases (email_exists payload.email db.sensitive)) [
    | inl taken ↦ let bad : err (already_exists "Account") ≡ ok p = rw taken at h in cc
    | inr free ↦ elim (Bool-cases (any same_nc db.non_critical)) [
      | inl a ↦ let bad : err integrity_error ≡ ok p = rw (free, a) at h in cc
      | inr a ↦ elim (Bool-cases (any (clashes (sensitive_row payload ids)) db.sensitive)) [
        | inl b ↦ let bad : err integrity_error ≡ ok p = rw (free, a, b) at h in cc
        | inr b ↦ elim (Bool-cases (any same_person db.persons)) [
          | inl c ↦ let bad : err integrity_error ≡ ok p = rw (free, a, b, c) at h in cc
          | inr c ↦ (a, b, c, rw (free, a, b, c) refl)
        ]
      ]
    ]
  ]

  -- Deleting a person that was just created leaves the three tables as they were before.
  pub delete_entity-create_entity :
      {p : Person}
      → (create_entity payload ids db).0 ≡ ok p
      → delete_entity ids.person (create_entity payload ids db).1 ≡ (ok tt, db)
  unfolding delete_entity delete_found delete_with delete_rows get_person get_sensitive
  delete_entity-create_entity h =
      let (a, b, c, e) = created-ok h in
      let nc =
        without_absent (λ (n : NonCriticalRow). str_eq n.id ids.non_critical) same_nc
          db.non_critical (λ x g. g) a in
      let sd =
        without_absent (λ (s : SensitiveRow). str_eq s.id ids.sensitive)
          (clashes (sensitive_row payload ids)) db.sensitive (λ x g. rw g refl) b in
      let ps =
        without_absent (λ (q : Person). str_eq q.id ids.person) same_person db.persons
          (λ x g. rw g refl) c in
      rw
        (
          e,
          eq_refl ids.person,
          eq_refl ids.sensitive,
          eq_refl ids.non_critical,
          nc,
          eq_refl ids.sensitive,
          sd,
          eq_refl ids.person,
          ps,
        )
        refl

  creation_orphans :
      email_exists payload.email db.sensitive ≡ false
      → any same_nc db.non_critical ≡ false
      → any
          (λ (s : SensitiveRow).
            same_value s.curp (some payload.curp) || same_value s.rfc (some payload.rfc))
          db.sensitive
        ≡ true
      → create_entity payload ids db ≡ (err integrity_error, with_non_critical)
  unfolding create_entity insert_non_critical insert_sensitive
  creation_orphans free fresh clash = rw (free, fresh, clash_is db.sensitive clash) refl
    where
      clash_is :
          (ss : List SensitiveRow)
          → any
              (λ (s : SensitiveRow).
                same_value s.curp (some payload.curp) || same_value s.rfc (some payload.rfc))
              ss
            ≡ true
          → any (clashes (sensitive_row payload ids)) ss ≡ true
      clash_is [] h = cc
      clash_is (s ∷ ss) h = ground (arith, clash_is ss)

abbrev refers : String → SensitiveRow → Bool
refers id s = str_eq s.non_critical_data_id id

abbrev has_id : String → NonCriticalRow → Bool
has_id id n = str_eq n.id id

-- The row of non_critical_personal_data is there, and no row of sensitive_data refers to it.
abbrev pub IsOrphan : String → People → Type 0
IsOrphan id db = (any (has_id id) db.non_critical ≡ true) × (any (refers id) db.sensitive ≡ false)

-- Deletions of persons, one after another, whatever each of them answers.
unfoldable pub delete_each : List String → People → People
delete_each [] db = db
delete_each (id ∷ ids) db = delete_each ids (delete_entity id db).1

get_sensitive-refers :
    (id key : String) (rs : List SensitiveRow) {r : SensitiveRow}
    → any (refers id) rs ≡ false
    → get_sensitive key rs ≡ some r
    → refers id r ≡ false
unfolding get_sensitive
get_sensitive-refers id key [] h e = cc
get_sensitive-refers id key (s ∷ ss) {r} h e = elim (Bool-cases (str_eq s.id key)) [
  | inl yes_ ↦
      let found : some s ≡ some r = rw yes_ at e in
      let same : s ≡ r = cc in
      let at_s : refers id s ≡ false = ground arith in ap (refers id) (sym same) ∙ at_s
  | inr no_ ↦ get_sensitive-refers id key ss (ground arith) (rw no_ at e)
]

any-rows_without :
    {A : Type 0} (p q : A → Bool) (xs : List A)
    → any q xs ≡ false
    → any q (rows_without p xs) ≡ false
any-rows_without p q [] h = refl
any-rows_without p q (x ∷ xs) h = elim (Bool-cases (p x)) [
  | inl yes_ ↦ rw yes_ (any-rows_without p q xs (ground arith))
  | inr no_ ↦ rw no_ (ground (arith, any-rows_without p q xs))
]

kept_by_rows_without :
    (id other : String) (ns : List NonCriticalRow)
    → str_eq other id ≡ false
    → any (has_id id) ns ≡ true
    → any (has_id id) (rows_without (has_id other) ns) ≡ true
kept_by_rows_without id other [] d h = cc
kept_by_rows_without id other (n ∷ ns) d h = elim (Bool-cases (str_eq n.id other)) [
  | inl yes_ ↦
      let differs : str_eq n.id id ≡ false =
        ap (λ x. str_eq x id) ((eq_iff n.id other).0 yes_) ∙ d in
      rw yes_ (kept_by_rows_without id other ns d (ground arith))
  | inr no_ ↦ rw no_ (ground (arith, kept_by_rows_without id other ns d))
]

delete_with-IsOrphan :
    (id : String) (p : Person) (db : People) (r : Option SensitiveRow)
    → get_sensitive p.sensitive_data_id db.sensitive ≡ r
    → IsOrphan id db
    → IsOrphan id (delete_with p r db).1
unfolding delete_with delete_rows
delete_with-IsOrphan id p db none e h = h
delete_with-IsOrphan id p db (some r) e (there, alone) = (
  kept_by_rows_without id r.non_critical_data_id db.non_critical
      (get_sensitive-refers id p.sensitive_data_id db.sensitive alone e) there,
  any-rows_without (λ (s : SensitiveRow). str_eq s.id r.id) (refers id) db.sensitive alone,
)

delete_found-IsOrphan :
    (id : String) (db : People) (p : Option Person)
    → IsOrphan id db
    → IsOrphan id (delete_found p db).1
unfolding delete_found
delete_found-IsOrphan id db none h = h
delete_found-IsOrphan id db (some p) h = delete_with-IsOrphan id p db _ refl h

delete_each-IsOrphan :
    (id : String) (deleted : List String) (db : People)
    → IsOrphan id db
    → IsOrphan id (delete_each deleted db)
unfolding delete_each delete_entity
delete_each-IsOrphan id [] db h = h
delete_each-IsOrphan id (d ∷ ds) db h =
    delete_each-IsOrphan id ds (delete_entity d db).1
      (delete_found-IsOrphan id db (get_person d db.persons) h)

-- Where the address and the new id are free and the CURP or the RFC belongs to someone else, the creation
-- of a person fails, and a row of non_critical_personal_data stays to which no row of sensitive_data
-- refers, however many persons are deleted afterwards.
pub create_entity-IsOrphan :
    (payload : PersonalDataCreate) (ids : Ids) (db : People) (deleted : List String)
    → email_exists payload.email db.sensitive ≡ false
    → any (has_id ids.non_critical) db.non_critical ≡ false
    → any (refers ids.non_critical) db.sensitive ≡ false
    → any
        (λ (s : SensitiveRow).
          same_value s.curp (some payload.curp) || same_value s.rfc (some payload.rfc))
        db.sensitive
      ≡ true
    → ((create_entity payload ids db).0 ≡ err integrity_error)
      × IsOrphan ids.non_critical (delete_each deleted (create_entity payload ids db).1)
create_entity-IsOrphan payload ids db deleted free fresh alone clash =
    let run = creation_orphans payload ids db free fresh clash in
    (
      ap (λ r. r.0) run,
      delete_each-IsOrphan ids.non_critical deleted (create_entity payload ids db).1
          (rw run (rw (eq_refl ids.non_critical) refl, alone)),
    )
