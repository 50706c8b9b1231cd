-- ===== src/Webhook.antt =====
-- app/domain/webhook/service.py and schemas.py: endpoints, their events, and the delivery of an event.
pub mod Events
pub mod Delivery
use iot_server.Prelude.{
  ℕ, ◌≡◌, String, Bool, true, false, Option, none, some, List, [], ◌∷◌, str_eq, ◌&&◌, ◌||◌, not,
  if◌then◌else◌,
}
use Prim.Native.Char.{Char, code}
use iot_server.Prelude.{◌==◌}
use iot_server.Http.{Result, ok, err, python}

pub record WebhookEndpoint : Type 0 where
  pub id : String
  pub owner_id : String
  pub url : String
  pub event_types : String
  pub secret : String
  pub is_active : Bool

unfoldable pub is_in : String → List String → Bool
is_in e [] = false
is_in e (x ∷ xs) = str_eq e x || is_in e xs

unfoldable pub has_comma : String → Bool
has_comma String.[] = false
has_comma (String.◌∷◌ c s) = code c == b',' || has_comma s

unfoldable pub any_comma : List String → Bool
unfolding has_comma
any_comma [] = false
any_comma (x ∷ xs) = has_comma x || any_comma xs

-- What the code takes from Python: `",".join`, `split(",")`, which gives back texts without commas, and
-- `sorted(set(…))`, which keeps the members.
pub record Texts : Type 0 where
  pub join : List String → String
  pub split : String → List String
  pub sorted_set : List String → List String
  pub split-join :
      (x : String) (xs : List String) → any_comma (x ∷ xs) ≡ false → split (join (x ∷ xs)) ≡ x ∷ xs
  pub is_in-sorted_set : (e : String) (xs : List String) → is_in e (sorted_set xs) ≡ is_in e xs

abbrev pub valid_events : List String
valid_events =
    "device.telemetry" ∷ "service.state_changed" ∷ "ticket.created" ∷ "payment.completed" ∷ []

unfoldable pub all_valid : List String → Bool
unfolding is_in
all_valid [] = true
all_valid (e ∷ es) = is_in e valid_events && all_valid es

-- An unknown event raises a ValueError.
unfoldable pub validated_event_types : Texts → List String → Result String
unfolding all_valid
validated_event_types t types =
    if all_valid types then ok (t.join (t.sorted_set types)) else err (python "ValueError")

-- The new row, with its id and secret.
unfoldable pub register :
    String → String → String → String → String → List WebhookEndpoint → List WebhookEndpoint
register id secret owner_id url event_types ws =
    record {
      id = id;
      owner_id = owner_id;
      url = url;
      event_types = event_types;
      secret = secret;
      is_active = true;
    }
    ∷ ws

unfoldable pub list_for_owner : String → List WebhookEndpoint → List WebhookEndpoint
list_for_owner owner_id [] = []
list_for_owner owner_id (w ∷ ws) =
    let rest = list_for_owner owner_id ws in
    if str_eq w.owner_id owner_id && w.is_active then w ∷ rest else rest

unfoldable pub get_webhook : String → List WebhookEndpoint → Option WebhookEndpoint
get_webhook id [] = none
get_webhook id (w ∷ ws) = let rest = get_webhook id ws in if str_eq w.id id then some w else rest

-- The row with the primary key `id`, set inactive.
unfoldable pub deactivate : String → List WebhookEndpoint → List WebhookEndpoint
deactivate id [] = []
deactivate id (w ∷ ws) =
    let rest = deactivate id ws in
    if str_eq w.id id then record w { is_active = false } ∷ ws else w ∷ rest

unfoldable pub delete_found :
    Option WebhookEndpoint → String → String → List WebhookEndpoint → List WebhookEndpoint
unfolding deactivate
delete_found none webhook_id owner_id ws = ws
delete_found (some w) webhook_id owner_id ws =
    if str_eq w.owner_id owner_id then deactivate webhook_id ws else ws

unfoldable pub delete : String → String → List WebhookEndpoint → List WebhookEndpoint
unfolding delete_found
delete webhook_id owner_id ws = delete_found (get_webhook webhook_id ws) webhook_id owner_id ws

unfoldable pub get_by_event : Texts → String → List WebhookEndpoint → List WebhookEndpoint
unfolding is_in
get_by_event t event_type [] = []
get_by_event t event_type (w ∷ ws) =
    let rest = get_by_event t event_type ws in
    if w.is_active && is_in event_type (t.split w.event_types) then w ∷ rest else rest
