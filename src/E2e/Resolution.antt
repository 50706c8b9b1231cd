-- ===== src/E2e/Resolution.antt =====
-- Which accounts `_resolve_username` of app/domain/auth/service.py gives.
use iot_server.Prelude.{
  ◌≡◌, refl, sym, ap, ◌⊎◌, String, Bool, true, false, Option, none, some, List, [], ◌∷◌, str_eq,
  ◌&&◌, arith, Bool-cases, inl, inr,
}
use mathlib.Core.Path.{subst}
use iot_server.Http.{Result, ok, err}
use iot_server.E2e.Login.{
  SensitiveData, Human, Db, by_email, by_sensitive_id, is_active, Resolved, accepted, first_model,
  choose, human_models, resolve_found, resolve_username,
}

by_email_sound :
    (email : String) (ds : List SensitiveData) (d : SensitiveData)
    → by_email email ds ≡ some d
    → str_eq d.email email ≡ true
unfolding by_email
by_email_sound email [] d e = cc
by_email_sound email (x ∷ ds) d e = elim (Bool-cases (str_eq x.email email)) [
  | inl yes_ ↦ ground arith
  | inr no_ ↦ by_email_sound email ds d (rw no_ at e)
]

by_sensitive_id_sound :
    (id : String) (hs : List Human) (h : Human)
    → by_sensitive_id id hs ≡ some h
    → str_eq h.sensitive_data_id id ≡ true
unfolding by_sensitive_id
by_sensitive_id_sound id [] h e = cc
by_sensitive_id_sound id (x ∷ hs) h e = elim (Bool-cases (str_eq x.sensitive_data_id id)) [
  | inl yes_ ↦ ground arith
  | inr no_ ↦ by_sensitive_id_sound id hs h (rw no_ at e)
]

-- What is true of a resolved account: it belongs to the credentials, is active, and is a master only
-- where its table has masters.
pub record IsResolved (db : Db) (d : SensitiveData) (r : Resolved) : Type 0 where
  pub row : r.data_row ≡ d
  pub owner : str_eq r.entity.sensitive_data_id d.id ≡ true
  pub active : is_active db d ≡ ok true
  pub master :
      (r.is_master ≡ false) ⊎ ((r.account_type ≡ "administrator") × (r.entity.is_master ≡ true))

accepted-some :
    (b : Result Bool) (r q : Resolved) → accepted b r ≡ ok (some q) → (b ≡ ok true) × (r ≡ q)
unfolding accepted
accepted-some (err e) r q h = cc
accepted-some (ok true) r q h = (refl, cc)
accepted-some (ok false) r q h = cc

mastership :
    (has h : Bool) (account_type : String)
    → (has ≡ true → account_type ≡ "administrator")
    → (has && h ≡ false) ⊎ ((account_type ≡ "administrator") × (h ≡ true))
mastership true true account_type m = inr (m refl, refl)
mastership true false account_type m = inl refl
mastership false h account_type m = inl refl

choose_sound :
    (db : Db) (d : SensitiveData) (account_type : String) (has_master : Bool) (found : Option Human)
    (later : Result (Option Resolved)) (r : Resolved)
    → (has_master ≡ true → account_type ≡ "administrator")
    → ((h : Human) → found ≡ some h → str_eq h.sensitive_data_id d.id ≡ true)
    → (later ≡ ok (some r) → IsResolved db d r)
    → choose db d account_type has_master found later ≡ ok (some r)
    → IsResolved db d r
unfolding choose
choose_sound db d account_type has_master none later r m owned l e = l e
choose_sound db d account_type has_master (some h) later r m owned l e =
    let (active, same) =
      accepted-some (is_active db d)
        (record {
          entity = h;
          data_row = d;
          account_type = account_type;
          is_master = has_master && h.is_master;
        })
        r e in
    let q : IsResolved db d (record {
      entity = h;
      data_row = d;
      account_type = account_type;
      is_master = has_master && h.is_master;
    }) =
      record {
        row = refl;
        owner = owned h refl;
        active = active;
        master = mastership has_master h.is_master account_type m;
      } in
    subst (IsResolved db d) same q

first_model_sound :
    (db : Db) (d : SensitiveData) (account_type : String) (has_master : Bool) (table : List Human)
    (rest : List (String × Bool × List Human)) (r : Resolved)
    → (has_master ≡ true → account_type ≡ "administrator")
    → (first_model db d rest ≡ ok (some r) → IsResolved db d r)
    → first_model db d ((account_type, has_master, table) ∷ rest) ≡ ok (some r)
    → IsResolved db d r
unfolding first_model
first_model_sound db d account_type has_master table rest r m later e =
    choose_sound db d account_type has_master (by_sensitive_id d.id table) (first_model db d rest) r
      m (λ h found. by_sensitive_id_sound d.id table h found) later e

none-first_model :
    {db : Db} {d : SensitiveData} {r : Resolved}
    → first_model db d [] ≡ ok (some r)
    → IsResolved db d r
unfolding first_model
none-first_model e = cc

human_models_sound :
    (db : Db) (d : SensitiveData) (r : Resolved)
    → first_model db d (human_models db) ≡ ok (some r)
    → IsResolved db d r
human_models_sound db d r e =
    first_model_sound db d "administrator" true db.administrators _ r (λ _. refl)
      (first_model_sound db d "manager" false db.managers _ r (λ x. cc)
        (first_model_sound db d "user" false db.users [] r (λ x. cc) (λ x. none-first_model x)))
      e

resolve_found_sound :
    (db : Db) (found : Option SensitiveData) (username : String) (r : Resolved)
    → ((d : SensitiveData) → found ≡ some d → str_eq d.email username ≡ true)
    → resolve_found db found ≡ ok (some r)
    → (str_eq r.data_row.email username ≡ true) × IsResolved db r.data_row r
unfolding resolve_found
resolve_found_sound db none username r named e = cc
resolve_found_sound db (some d) username r named e =
    let q = human_models_sound db d r e in
    let there = sym q.row in
    (
      subst (λ x. str_eq x.email username ≡ true) there (named d refl),
      subst (λ x. IsResolved db x r) there q,
    )

pub resolve_found-row :
    (db : Db) (found : Option SensitiveData) (r : Resolved)
    → resolve_found db found ≡ ok (some r)
    → found ≡ some r.data_row
unfolding resolve_found
resolve_found-row db none r e = cc
resolve_found-row db (some d) r e = ap some (sym (human_models_sound db d r e).row)

-- A user name resolves only to an account of the credentials with that e-mail address, whose personal
-- data are active, and which is a master only as an administrator whose row says so.
pub resolve_sound :
    (db : Db) (username : String) (r : Resolved)
    → resolve_username db username ≡ ok (some r)
    → (str_eq r.data_row.email username ≡ true) × IsResolved db r.data_row r
unfolding resolve_username
resolve_sound db username r e =
    resolve_found_sound db (by_email username db.sensitive) username r
      (λ d found. by_email_sound username db.sensitive d found) e
