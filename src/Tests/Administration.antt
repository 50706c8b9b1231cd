-- ===== src/Tests/Administration.antt =====
-- The theorems on the policy at concrete inputs.
use iot_server.Prelude.{◌≡◌, refl, true, false, List, [], ◌∷◌, ◌++◌, str_eq, if◌then◌else◌}
use iot_server.Policy.{
  Rule, Casbin, same, any, matcher, remove_same, role_for, is_allowed, CurrentUser,
}
use iot_server.Policy.Admin.{Texts, Request, add_policy, remove_policy, immutable, valid_payload}
use iot_server.Policy.Rules.{all_explicit}
use iot_server.Policy.Explicit.{IsSound}
use iot_server.Policy.Changes.{after, after-explicit}
use iot_server.Policy.Seed.{CsvText, seed_rules}

-- An enforcer that is its list of rules.
abbrev list_casbin : Casbin
list_casbin = record {
  Enforcer = List Rule;
  get_policy = λ e. e;
  has_policy = λ e r. any (same r) e;
  add_policy = λ r e. if any (same r) e then e else e ++ (r ∷ []);
  remove_policy = remove_same;
  g = λ e a b. str_eq a b;
  enforce = λ m e r. any (m r) e;
  has_policy-any = λ e r. refl;
  get-add = λ r e no_. rw no_ refl;
  add-held = λ r e yes_. rw yes_ refl;
  get-remove = λ r e. refl;
  g-eq = λ e a b. refl;
  enforce-any = λ m e r. refl;
}

abbrev texts : Texts
texts = record { has_star = λ s. str_eq s "*"; has_star-star = refl }

abbrev reads_devices : Rule
reads_devices = record { sub = "user"; obj = "Device"; act = "read" }

abbrev rules_at_start : List Rule
rules_at_start = immutable ∷ reads_devices ∷ []

-- A file of two lines, each already cut into its parts.
abbrev csv : CsvText
csv = record {
  strip = λ s. s;
  starts_with_hash = λ s. false;
  split_comma = λ s.
      if str_eq s "1"
      then "p" ∷ "master_admin" ∷ "*" ∷ "*" ∷ []
      else "p" ∷ "user" ∷ "Device" ∷ "read" ∷ [];
}

seeded : seed_rules csv ("1" ∷ "2" ∷ []) ≡ immutable ∷ reads_devices ∷ []
unfolding seed_rules
seeded = refl

explicit_rules : all_explicit (reads_devices ∷ []) ≡ true
unfolding all_explicit
explicit_rules = refl

sound_master : any (same immutable) rules_at_start ≡ true
unfolding any same
sound_master = refl

sound_explicit : all_explicit rules_at_start ≡ true
unfolding all_explicit
sound_explicit = refl

sound : IsSound list_casbin rules_at_start
sound = record { master = sound_master; explicit = sound_explicit }

abbrev master : CurrentUser
master = record {
  account_id = "m";
  account_type = "administrator";
  email = "m@x";
  is_master = true;
  sensitive_data_id = "sm";
}

abbrev guest : CurrentUser
guest = record {
  account_id = "g";
  account_type = "user";
  email = "g@x";
  is_master = false;
  sensitive_data_id = "sg";
}

abbrev requests : List (CurrentUser × Request)
requests =
    (master, remove_policy immutable)
    ∷ (master, add_policy (record { sub = "user"; obj = "User"; act = "read" }))
    ∷ (guest, remove_policy reads_devices)
    ∷ []

after-explicit_example :
    is_allowed list_casbin
      (after list_casbin texts requests rules_at_start)
      "user"
      false
      "write"
      "Device"
    ≡ list_casbin.has_policy
        (after list_casbin texts requests rules_at_start)
        (record { sub = "user"; obj = "Device"; act = "write" })
unfolding role_for
after-explicit_example =
    after-explicit list_casbin texts requests rules_at_start "user" false "write" "Device" sound
      refl

new_rule_valid : valid_payload texts (record { sub = "user"; obj = "User"; act = "read" }) ≡ true
unfolding valid_payload
new_rule_valid = refl

guest_denied : is_allowed list_casbin rules_at_start "user" false "administer" "_Policy" ≡ false
unfolding is_allowed any matcher
guest_denied = refl
