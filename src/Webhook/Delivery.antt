-- ===== src/Webhook/Delivery.antt =====
-- `deliver_event` of app/domain/webhook/service.py: the attempts for one endpoint.
use iot_server.Prelude.{
  ℕ, zero, suc, ◌+◌, ◌^◌, ◌≤◌, ◌<◌, ◌≡◌, refl, ap, ◌∙◌, arith, Bool, true, false, if◌then◌else◌,
}

-- How a delivery went: whether an attempt succeeded, how many were made, and the seconds slept.
pub record Sent : Type 0 where
  pub delivered : Bool
  pub posts : ℕ
  pub slept : ℕ

unfoldable pub retry : ℕ → Sent → Sent
retry attempt s = record {
  delivered = s.delivered;
  posts = suc s.posts;
  slept = 2 ^ attempt + s.slept;
}

-- The attempts that are left, from one number on; `post n` is whether the n-th is answered by a success,
-- an exception counting as a failure.
unfoldable pub attempts : (ℕ → Bool) → ℕ → ℕ → Sent
unfolding retry
attempts post attempt zero = record { delivered = false; posts = 0; slept = 0 }
attempts post attempt (suc left) =
    let rest = attempts post (suc attempt) left in
    if post attempt then record { delivered = true; posts = 1; slept = 0 } else retry attempt rest

unfoldable pub deliver : (ℕ → Bool) → ℕ → Sent
unfolding attempts
deliver post max_retries = attempts post 1 max_retries

fails_then :
    (post : ℕ → Bool) (failed attempt left : ℕ)
    → ((n : ℕ) → attempt ≤ n → n < attempt + failed → post n ≡ false)
    → post (attempt + failed) ≡ true
    → let s = attempts post attempt (failed + suc left) in
      (s.delivered ≡ true)
      × (s.posts ≡ suc failed)
      × (s.slept + 2 ^ attempt ≡ 2 ^ (attempt + failed))
unfolding attempts retry
fails_then post zero attempt left f e =
    let here : post attempt ≡ true = ap post (omega arith) ∙ e in
    let z : zero + suc left ≡ suc left = omega arith in
    let same : attempt + 0 ≡ attempt = omega arith in
    rw z (rw here (refl, refl, rw same (omega arith)))
fails_then post (suc failed) attempt left f e =
    let z : suc failed + suc left ≡ suc (failed + suc left) = omega arith in
    let here : post attempt ≡ false = f attempt (omega arith) (omega arith) in
    let shift : attempt + suc failed ≡ suc attempt + failed = omega arith in
    let (d, p, s) =
      fails_then post failed (suc attempt) left (λ n le lt. f n (omega arith) (omega arith))
        (rw shift at e) in
    rw (z, here) (d, ap suc p, rw shift (omega (arith, s)))

-- If the first attempts fail and the next one succeeds, the event is delivered by that one, no further
-- one is made, and the pauses before it double from two seconds on.
pub deliver_lem :
    (post : ℕ → Bool) (failed left : ℕ)
    → ((n : ℕ) → 1 ≤ n → n < 1 + failed → post n ≡ false)
    → post (1 + failed) ≡ true
    → let s = deliver post (failed + suc left) in
      (s.delivered ≡ true) × (s.posts ≡ suc failed) × (s.slept + 2 ≡ 2 ^ (1 + failed))
unfolding deliver
deliver_lem post failed left f e = fails_then post failed 1 left f e
