-- ===== src/Tests/Payments.antt =====
-- The theorems on payments and on hash trees at concrete inputs.
use package.text.Mathlib.TextLemmas.{cons-ne-nil}
use iot_server.Prelude.Lists.{length}
use iot_server.Prelude.{
  ◌+◌, ◌*◌, ◌^◌, ◌≡◌, refl, arith, String, true, false, none, some, List, [], ◌∷◌, str_ne,
}
use iot_server.Http.{Result, ok, err, python}
use iot_server.Patch.{unset, null}
use iot_server.Payment.Rows.{
  naive, without_zone, SubscriptionType, UserService, Payment, Tables, get_user_service,
  last_payment, get_subscription_type, set_active,
}
use iot_server.Payment.Service.{PaymentCreate, billing_period, calculate_expires_at, create_entity}
use iot_server.Payment.Extend.{create_entity_lem}
use iot_server.Payment.Catalog.{
  SubscriptionTypeUpdate, update_subscription_type, list_subscription_types,
}
use iot_server.Payment.Listed.{invalid_response, update_subscription_type-null}
use iot_server.Payment.Deposits.{IsRecorded, create_entity-list_payment_history}
use iot_server.Payment.Assign.{pairs_unique}
use iot_server.Xmss.{
  Python, Message, public_root, reconstruct_root, ots_public_key, leaves_from, verify_payload,
}
use iot_server.Xmss.{levels, last_level}
use iot_server.Xmss.Halt.{levels_halt}
use iot_server.Xmss.Path.{auth_path, reconstruct-root}
use iot_server.Xmss.Verify.{honest, verify-honest}

-- A column that keeps the amounts of these payments.
abbrev cents : String → String
cents a = a

abbrev bought : Payment
bought = record {
  id = "p1";
  user_service_id = "us1";
  subscription_type_id = "t1";
  expires_at = naive (400 + 30 * 86400);
}

abbrev monthly : SubscriptionType
monthly = record { id = "t1"; type = "mensual"; cost = some "10.00" }

abbrev assigned : UserService
assigned = record { id = "us1"; user_id = "u1"; service_id = "sv1"; is_active = false }

abbrev tables : List Payment → Tables
tables ps = record {
  subscription_types = monthly ∷ [];
  user_services = assigned ∷ [];
  payments = ps;
  histories = [];
  users = "u1" ∷ "u2" ∷ [];
  services = "sv1" ∷ [];
}

abbrev order : PaymentCreate
order = record {
  user_service_id = "us1";
  subscription_type_id = "t1";
  deposit_id = "d1";
  amount = "100.00";
}

found_service : get_user_service "us1" (assigned ∷ []) ≡ some assigned
unfolding get_user_service
found_service = refl

found_type : get_subscription_type "t1" (monthly ∷ []) ≡ some monthly
unfolding get_subscription_type
found_type = refl

found_period : billing_period "mensual" ≡ some 30
unfolding billing_period
found_period = refl

first : last_payment "us1" [] ≡ none
unfolding last_payment
first = refl

create_entity_lem_example :
    let made = create_entity (λ s. s) without_zone cents 400 "p1" "h1" order (tables []) in
    (made.0 ≡ ok bought)
    × (last_payment "us1" made.1.payments ≡ some bought)
    × (get_user_service "us1" made.1.user_services ≡ some (set_active true assigned))
    × (made.1.histories
        ≡ record {
          id = "h1";
          payment_id = "p1";
          deposit_id = "d1";
          amount = "100.00";
          period_start = naive 400;
          period_end = naive (400 + 30 * 86400);
        }
          ∷ [])
    × (create_entity (λ s. s) without_zone cents 500 "p2" "h2" order made.1
        ≡ (err (python "TypeError"), made.1))
create_entity_lem_example =
    create_entity_lem (λ s. s) cents order (tables []) assigned monthly monthly 30 30 400 500 "p1"
      "h1" "p2" "h2" "t1" "d1" "100.00" found_service found_type found_period first found_type
      found_period

abbrev run : Result Payment × Tables
run = create_entity (λ s. s) without_zone cents 400 "p1" "h1" order (tables [])

paid : run ≡ (ok bought, run.1)
unfolding create_entity get_user_service get_subscription_type calculate_expires_at billing_period
    last_payment without_zone
paid = refl

create_entity-list_payment_history_example :
    IsRecorded
      (λ s. s)
      without_zone
      cents
      400
      "p1"
      "h1"
      order
      (tables [])
      (λ hs. hs)
      (λ h hs m. m)
      bought
      run.1
create_entity-list_payment_history_example =
    create_entity-list_payment_history (λ s. s) without_zone cents 400 "p1" "h1" order (tables [])
      (λ hs. hs) (λ h hs m. m) paid

abbrev cleared : SubscriptionTypeUpdate
cleared = record { type = unset; cost = null }

update_subscription_type-null_example :
    let (answer, db') = update_subscription_type (λ c. c) "t1" cleared (tables []) in
    (answer ≡ err invalid_response) × (list_subscription_types db' ≡ (err invalid_response, db'))
update_subscription_type-null_example =
    update_subscription_type-null (λ c. c) "t1" cleared (tables []) found_type refl refl

unique : pairs_unique (assigned ∷ []) ≡ true
unfolding pairs_unique
unique = refl

-- A hash that writes "h" before its input.
abbrev pub python_library : Python
python_library = record {
  sha256_hex = λ s. String.◌∷◌ "h" s;
  str = λ n. "i";
  strip = λ s. s;
  lower = λ s. s;
  drop_0x = λ s. s;
  hex-nonempty = λ s. str_ne _ _ (cons-ne-nil "h" s);
  strip-hex = λ s. refl;
  lower-hex = λ s. refl;
  drop_0x-hex = λ s. refl;
}

reconstruct-root_example :
    public_root python_library "seed" 2
    ≡ some (
        reconstruct_root python_library
          (ots_public_key python_library "seed" 3)
          (auth_path python_library 2 (leaves_from python_library "seed" 0 (2 ^ 2)) 3))
reconstruct-root_example = reconstruct-root python_library "seed" 2 3 (omega arith)

abbrev pub json_bytes : Message → String
json_bytes m = "{}"

abbrev root : String
root =
    reconstruct_root python_library (ots_public_key python_library "seed" 1)
      (auth_path python_library 2 (leaves_from python_library "seed" 0 (2 ^ 2)) 1)

root_lem : public_root python_library "seed" 2 ≡ some root
root_lem = reconstruct-root python_library "seed" 2 1 (omega arith)

honest_accepted :
    verify_payload python_library json_bytes
      (honest python_library "seed" 2 "device" "dev" "c" 3)
      root
    ≡ true
honest_accepted =
    verify-honest python_library json_bytes "seed" 2 3 "device" "dev" "c" root (omega arith)
      root_lem

levels_halt_example :
    (levels python_library 4 ("a" ∷ "b" ∷ "c" ∷ [])
      ≡ levels python_library 3 ("a" ∷ "b" ∷ "c" ∷ []))
    × (length (last_level python_library (levels python_library 3 ("a" ∷ "b" ∷ "c" ∷ []))) ≡ 1)
levels_halt_example = levels_halt python_library ("a" ∷ "b" ∷ "c" ∷ []) 1 (omega arith)
