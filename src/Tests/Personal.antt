-- ===== src/Tests/Personal.antt =====
-- The theorems on personal data at concrete inputs.
use Prim.Native.Char.{code}
use iot_server.Prelude.{ℕ, ◌≡◌, ◌≢◌, refl, arith, String, true, some, [], ◌∷◌, ◌++◌}
use iot_server.Prelude.Lists.{length}
use iot_server.Http.{ok, err}
use iot_server.Personal.{Text, Unicode, between, one_of}
use iot_server.Personal.Curp.{curp_alphabet, index_from, validate_curp, calculate_curp_check_digit}
use iot_server.Personal.Curp.Digit.{is_guarded, substitution_detected}
use iot_server.Personal.Birth.{Date}
use iot_server.Personal.Accounts.{
  People, SensitiveRow, PersonalDataCreate, Ids, create_entity, delete_entity, integrity_error,
  person_row,
}
use iot_server.Personal.Stored.{
  delete_entity-create_entity, IsOrphan, delete_each, create_entity-IsOrphan,
}

abbrev codes : String → Text
codes String.[] = []
codes (String.◌∷◌ c s) = code c ∷ codes s

-- ASCII, with texts that are trimmed and in one case already.
abbrev ascii : Unicode
ascii = record {
  strip = λ s. s;
  upper = λ s. s;
  lower = λ s. s;
  is_decimal = between b'0' b'9';
  is_space = between 32 32;
  decimal_value = λ c. c;
  upper-strip-idem = λ s. refl;
  lower-strip-idem = λ s. refl;
}

abbrev sample : Text
sample = codes "HEGG560427MVZRRL04"

sample_accepted : validate_curp ascii sample ≡ ok sample
unfolding validate_curp
sample_accepted = refl

abbrev before : Text
before = codes "HEGG5"

abbrev behind : Text
behind = codes "0427MVZRRL0"

-- The sixth character of a CURP is a digit of the year.
substitution_detected_example : ◌≢◌ {A = ℕ} b'4' b'3'
substitution_detected_example =
    substitution_detected before behind b'6' b'3' 6 3 b'4' b'3' guarded six three
      (λ h. absurd (omega (arith, h))) right wrong
  where
    guarded : is_guarded (length before) ≡ true
    guarded = unfold one_of in refl

    six : index_from 0 curp_alphabet b'6' ≡ some 6
    six = unfold index_from in refl

    three : index_from 0 curp_alphabet b'3' ≡ some 3
    three = unfold index_from in refl

    right : calculate_curp_check_digit (before ++ b'6' ∷ behind) ≡ some b'4'
    right = unfold calculate_curp_check_digit in refl

    wrong : calculate_curp_check_digit (before ++ b'3' ∷ behind) ≡ some b'3'
    wrong = unfold calculate_curp_check_digit in refl

abbrev today : Date
today = record { year = 2026; month = 3; day = 1 }

abbrev born : Date
born = record { year = 2008; month = 2; day = 29 }

abbrev address : Text
address = codes "AA:BB:CC:00:11:22"

abbrev registered : SensitiveRow
registered = record {
  id = "s0";
  non_critical_data_id = "n0";
  email = "a@b.mx";
  curp = some "curp 0";
  rfc = some "R0";
}

abbrev people : People
people = record {
  non_critical = record { id = "n0"; first_name = "Eva"; last_name = "Gil" } ∷ [];
  sensitive = registered ∷ [];
  persons = record { id = "p0"; sensitive_data_id = "s0" } ∷ [];
}

abbrev newcomer : PersonalDataCreate
newcomer = record {
  first_name = "Ana";
  last_name = "Paz";
  email = "ana@b.mx";
  curp = "curp 1";
  rfc = "R1";
}

abbrev ids : Ids
ids = record { non_critical = "n1"; sensitive = "s1"; person = "p1" }

delete_entity-create_entity_example :
    delete_entity "p1" (create_entity newcomer ids people).1 ≡ (ok tt, people)
delete_entity-create_entity_example = delete_entity-create_entity newcomer ids people done
  where
    done : (create_entity newcomer ids people).0 ≡ ok (person_row ids)
    done = unfold create_entity in refl

abbrev double : PersonalDataCreate
double = record newcomer { curp = "curp 0" }

create_entity-IsOrphan_example :
    ((create_entity double ids people).0 ≡ err integrity_error)
    × IsOrphan "n1" (delete_each ("p0" ∷ "p1" ∷ []) (create_entity double ids people).1)
create_entity-IsOrphan_example =
    create_entity-IsOrphan double ids people ("p0" ∷ "p1" ∷ []) refl refl refl refl
