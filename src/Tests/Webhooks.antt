-- ===== src/Tests/Webhooks.antt =====
-- The theorems on webhooks at concrete inputs.
use iot_server.Prelude.{
  ℕ, suc, ◌+◌, ◌^◌, ◌≤◌, ◌<◌, ◌≡◌, refl, arith, String, true, false, List, [], ◌∷◌, ◌==◌,
}
use iot_server.Http.{ok}
use iot_server.Webhook.{WebhookEndpoint, Texts, all_valid, validated_event_types}
use iot_server.Webhook.Delivery.{deliver, deliver_lem}
use iot_server.Tests.Encoding.{write_all, read_all, read-write}

abbrev texts : Texts
texts = record {
  join = write_all;
  split = read_all;
  sorted_set = λ xs. xs;
  split-join = λ x xs plain. read-write (x ∷ xs);
  is_in-sorted_set = λ e xs. refl;
}

abbrev endpoint : WebhookEndpoint
endpoint = record {
  id = "w1";
  owner_id = "o1";
  url = "https://x";
  event_types = write_all ("ticket.created" ∷ []);
  secret = "s";
  is_active = true;
}

abbrev events : List String
events = "payment.completed" ∷ "ticket.created" ∷ []

known_events : all_valid events ≡ true
unfolding all_valid
known_events = refl

valid_text : validated_event_types texts events ≡ ok (write_all events)
unfolding validated_event_types
valid_text = refl

third : (n : ℕ) → 1 ≤ n → n < 1 + 2 → (n == 3) ≡ false
third n le lt = ground arith

deliver_lem_example :
    let s = deliver (λ n. n == 3) (2 + suc 2) in
    (s.delivered ≡ true) × (s.posts ≡ 3) × (s.slept + 2 ≡ 2 ^ (1 + 2))
deliver_lem_example = deliver_lem (λ n. n == 3) 2 2 third refl
