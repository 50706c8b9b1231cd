-- ===== src/Session/Keys.antt =====
-- The keys of app/shared/session/repository.py, and when two of them are equal.
use Prim.Native.Char.{Char, code}
use Prim.Native.String.{◌++◌, ◌∷◌}
use text.Mathlib.TextLemmas.{cons-append, head-eq_of_cons-eq, append_cancel_left}
use mathlib.Core.Bool.{false≢true}
use iot_server.Prelude.{
  str_ne, ◌≡◌, ◌≢◌, sym, ◌∙◌, ap, String, false, arith, str_eq, eq_iff, Bool-cases, inl, inr,
}

unfoldable pub entity_key : String → String
entity_key id = "entity_session:" ++ id

unfoldable pub index_key : String → String
index_key id = "session_id_index:" ++ id

unfoldable pub user_key : String → String
user_key id = "user_session:" ++ id

unfoldable pub refresh_key : String → String
refresh_key token = "refresh_token:" ++ token

unfoldable pub blacklist_key : String → String
blacklist_key token_id = "blacklist:" ++ token_id

unfoldable pub rate_limit_storage_key : String → String
rate_limit_storage_key k = "rate_limit:" ++ k

first_ne : (c d : Char) (p q a b : String) → code c ≢ code d → (c ∷ p) ++ a ≢ (d ∷ q) ++ b
first_ne c d p q a b h e =
    h (ap code (head-eq_of_cons-eq (sym (cons-append c p a) ∙ e ∙ cons-append d q b)))

pub entity-ne-index : (a b : String) → str_eq (entity_key a) (index_key b) ≡ false
unfolding entity_key index_key
entity-ne-index a b =
    str_ne _ _ (first_ne "e" "s" "ntity_session:" "ession_id_index:" a b (omega arith))

pub index-ne-entity : (a b : String) → str_eq (index_key a) (entity_key b) ≡ false
unfolding entity_key index_key
index-ne-entity a b =
    str_ne _ _ (first_ne "s" "e" "ession_id_index:" "ntity_session:" a b (omega arith))

pub user-ne-refresh : (a b : String) → str_eq (user_key a) (refresh_key b) ≡ false
unfolding user_key refresh_key
user-ne-refresh a b = str_ne _ _ (first_ne "u" "r" "ser_session:" "efresh_token:" a b (omega arith))

pub refresh-ne-user : (a b : String) → str_eq (refresh_key a) (user_key b) ≡ false
unfolding user_key refresh_key
refresh-ne-user a b = str_ne _ _ (first_ne "r" "u" "efresh_token:" "ser_session:" a b (omega arith))

-- A prefix changes no comparison.
pub prefix_eq : (p a b : String) → str_eq (p ++ a) (p ++ b) ≡ str_eq a b
prefix_eq p a b = elim (Bool-cases (str_eq a b)) [
  | inl e ↦ (eq_iff _ _).1 (ap (λ t. p ++ t) ((eq_iff a b).0 e)) ∙ sym e
  | inr n ↦
      str_ne _ _ (λ e. false≢true (sym n ∙ (eq_iff a b).1 (append_cancel_left p a b e))) ∙ sym n
]

pub entity_key-eq : (a b : String) → str_eq (entity_key a) (entity_key b) ≡ str_eq a b
unfolding entity_key
entity_key-eq a b = prefix_eq "entity_session:" a b

pub index_key-eq : (a b : String) → str_eq (index_key a) (index_key b) ≡ str_eq a b
unfolding index_key
index_key-eq a b = prefix_eq "session_id_index:" a b

pub user_key-eq : (a b : String) → str_eq (user_key a) (user_key b) ≡ str_eq a b
unfolding user_key
user_key-eq a b = prefix_eq "user_session:" a b

pub refresh_key-eq : (a b : String) → str_eq (refresh_key a) (refresh_key b) ≡ str_eq a b
unfolding refresh_key
refresh_key-eq a b = prefix_eq "refresh_token:" a b

pub ruleset key_laws = (
  entity-ne-index, index-ne-entity, user-ne-refresh, refresh-ne-user, entity_key-eq, index_key-eq,
  user_key-eq, refresh_key-eq,
)
