-- ===== src/RateLimit/Window.antt =====
-- The limiter of app/shared/rate_limit.py over the hits of one window.
use native.Mathlib.Numerals.{add-one}
use iot_server.Prelude.{
  ℕ, suc, ◌+◌, ◌-◌, ◌≤◌, ◌<◌, ◌≡◌, refl, ap, ◌∙◌, String, Option, none, some, List, [], ◌∷◌, lt→ltb,
  ltb, eq_refl, max, min, arith, Bool-cases, inl, inr, if◌then◌else◌,
}
use iot_server.Prelude.Lists.{length}
use iot_server.Valkey.{Valkey, Cell, survive, with_deadline}
use iot_server.Http.{Result, ok, err, too_many, continue-ok}
use iot_server.Session.Keys.{rate_limit_storage_key}
use iot_server.RateLimit.{counted, increment_rate_limit, over_limit, enforce_limit}

module _ (v : Valkey) (key : String) where
  abbrev pub slot : ℕ → v.Store → Option Cell
  slot now s = v.cell now (rate_limit_storage_key key) s

  -- `n` hits were counted in the window that ends at `dl`.
  abbrev pub tally : ℕ → ℕ → Option Cell
  tally n dl = some (record { value = v.numerals.numeral n; deadline = some dl })

  counted-one :
      (now window : ℕ) (p : Option ℕ × v.Store)
      → p.0 ≡ some 1
      → counted v now (rate_limit_storage_key key) window p
        ≡ (ok 1, v.expire now (rate_limit_storage_key key) window p.1)
  unfolding counted
  counted-one now window (none, s) e = cc
  counted-one now window (some n, s) e = ground arith

  counted-more :
      (now window n : ℕ) (p : Option ℕ × v.Store)
      → p.0 ≡ some n
      → 1 < n
      → counted v now (rate_limit_storage_key key) window p ≡ (ok n, p.1)
  unfolding counted
  counted-more now window n (none, s) e h = cc
  counted-more now window n (some m, s) e h = ground arith

  increment-first :
      (now window : ℕ) (s : v.Store)
      → 0 < window
      → slot now s ≡ none
      → let (r, s') = increment_rate_limit v now key window s in
        (r ≡ ok 1) × (slot now s' ≡ tally 1 (now + window))
  unfolding increment_rate_limit
  increment-first now window s pos e =
      let k = rate_limit_storage_key key in
      let c : Cell = record { value = v.numerals.numeral 1; deadline = none } in
      let hit = v.cell-incr now k k s 1 c (rw e) in
      let kept : slot now (v.incr now k s).1 ≡ some c = simp eq_refl at hit.1 in
      rw (counted-one now window (v.incr now k s) hit.0) (
        refl,
        simp eq_refl at (v.cell-expire now window k k (v.incr now k s).1 pos)
            ∙ ap (with_deadline (now + window)) kept,
      )

  increment-next :
      (now window n dl : ℕ) (s : v.Store)
      → slot now s ≡ tally (suc n) dl
      → let (r, s') = increment_rate_limit v now key window s in
        (r ≡ ok (suc n + 1)) × (slot now s' ≡ tally (suc n + 1) dl)
  unfolding increment_rate_limit
  increment-next now window n dl s e =
      let k = rate_limit_storage_key key in
      let c : Cell = record { value = v.numerals.numeral (suc n + 1); deadline = some dl } in
      let hit =
        v.cell-incr now k k s (suc n + 1) c (rw e (rw (v.numerals.number-numeral (suc n)))) in
      rw (counted-more now window (suc n + 1) (v.incr now k s) hit.0 (omega arith))
        (refl, simp eq_refl at hit.1)

  -- The answer to a hit that finds `n` hits in the window until `dl`, the new one included.
  abbrev pub verdict : ℕ → ℕ → ℕ → ℕ → Result (Unit {0})
  verdict max_requests n now dl =
      if ltb max_requests n then err (too_many (max (dl - now) 1)) else ok tt

  over_limit-tally :
      (now max_requests n dl : ℕ) (s : v.Store)
      → slot now s ≡ tally n dl
      → over_limit v now key max_requests n s ≡ (verdict max_requests n now dl, s)
  unfolding over_limit
  over_limit-tally now max_requests n dl s e =
      rw e (elim (Bool-cases (ltb max_requests n)) [ inl h ↦ rw h | inr h ↦ rw h ])

  -- The first hit after a key was free opens a window and is answered by what it then holds.
  enforce-first :
      (now max_requests window : ℕ) (s : v.Store)
      → 0 < window
      → slot now s ≡ none
      → let (r, s') = enforce_limit v now key max_requests window s in
        (r ≡ verdict max_requests 1 now (now + window)) × (slot now s' ≡ tally 1 (now + window))
  unfolding enforce_limit
  enforce-first now max_requests window s pos e =
      let q = increment_rate_limit v now key window s in
      let hit = increment-first now window s pos e in
      let whole =
        continue-ok (over_limit v now key max_requests) q hit.0
        ∙ over_limit-tally now max_requests 1 (now + window) q.1 hit.1 in
      (ap (λ p. p.0) whole, ap (λ p. slot now p.1) whole ∙ hit.1)

  -- A hit inside a window counts in it, keeps its deadline, and is answered by what it then holds: it
  -- is let through up to the limit, and beyond it refused with the seconds left, at least one.
  pub enforce-next :
      (now max_requests window n dl : ℕ) (s : v.Store)
      → slot now s ≡ tally (suc n) dl
      → let (r, s') = enforce_limit v now key max_requests window s in
        (r ≡ verdict max_requests (suc n + 1) now dl) × (slot now s' ≡ tally (suc n + 1) dl)
  unfolding enforce_limit
  enforce-next now max_requests window n dl s e =
      let q = increment_rate_limit v now key window s in
      let hit = increment-next now window n dl s e in
      let whole =
        continue-ok (over_limit v now key max_requests) q hit.0
        ∙ over_limit-tally now max_requests (suc n + 1) dl q.1 hit.1 in
      (ap (λ p. p.0) whole, ap (λ p. slot now p.1) whole ∙ hit.1)

  abbrev pub admitted_one : Result (Unit {0}) → ℕ → ℕ
  admitted_one (ok _) n = n + 1
  admitted_one (err _) n = n

  -- How many hits at the given seconds are let through.
  pub admitted : ℕ → ℕ → List ℕ → v.Store → ℕ
  admitted max_requests window [] s = 0
  admitted max_requests window (t ∷ ts) s =
      let (r, s') = enforce_limit v t key max_requests window s in
      admitted_one r (admitted max_requests window ts s')

  -- Seconds in order, from `now` on and before `dl`.
  abbrev pub Within : ℕ → ℕ → List ℕ → Type 0
  Within now dl [] = Unit {0}
  Within now dl (t ∷ ts) = (now ≤ t) × (t < dl) × Within t dl ts

  admitted_one-verdict :
      (max_requests n now dl k : ℕ)
      → admitted_one (verdict max_requests (n + 1) now dl) (min (max_requests - suc n) k)
        ≡ min (max_requests - n) (suc k)
  admitted_one-verdict max_requests n now dl k = ground arith

  -- In a window that holds some hits, the rest of the quota is let through.
  admitted-tally :
      (max_requests window now n dl : ℕ) (ts : List ℕ) (s : v.Store)
      → slot now s ≡ tally (suc n) dl
      → Within now dl ts
      → admitted max_requests window ts s ≡ min (max_requests - suc n) (length ts)
  unfolding admitted
  admitted-tally max_requests window now n dl [] s e w = omega arith
  admitted-tally max_requests window now n dl (t ∷ ts) s e (le, lt, w) =
      let later : slot t s ≡ tally (suc n) dl =
        v.cell-later now t (rate_limit_storage_key key) s le
        ∙ ap (survive t) e
        ∙ rw (lt→ltb t dl lt) in
      let hit = enforce-next t max_requests window n dl s later in
      let rest =
        admitted-tally max_requests window t (suc n) dl ts
          (enforce_limit v t key max_requests window s).1 (rw add-one at hit.1) w in
      rw (hit.0) (rw rest (admitted_one-verdict max_requests (suc n) t dl (length ts)))

  -- From a key with no hits, of any hits inside one window exactly the first `max_requests` are let
  -- through.
  pub admitted_in_window :
      (max_requests window start : ℕ) (ts : List ℕ) (s : v.Store)
      → 0 < window
      → slot start s ≡ none
      → Within start (start + window) ts
      → admitted max_requests window (start ∷ ts) s ≡ min max_requests (suc (length ts))
  unfolding admitted
  admitted_in_window max_requests window start ts s pos e w =
      let hit = enforce-first start max_requests window s pos e in
      let rest =
        admitted-tally max_requests window start 0 (start + window) ts
          (enforce_limit v start key max_requests window s).1 hit.1 w in
      rw (hit.0) (
        rw rest
          (admitted_one-verdict max_requests 0 start (start + window) (length ts) ∙ omega arith))

  -- The window is not a sliding one: whatever was counted in it, at its deadline the whole quota is
  -- open again.
  pub admitted_at_deadline :
      (max_requests window now n dl : ℕ) (ts : List ℕ) (s : v.Store)
      → 0 < window
      → now ≤ dl
      → slot now s ≡ tally n dl
      → Within dl (dl + window) ts
      → admitted max_requests window (dl ∷ ts) s ≡ min max_requests (suc (length ts))
  admitted_at_deadline max_requests window now n dl ts s pos le e w =
      admitted_in_window max_requests window dl ts s pos
        (v.cell-later now dl (rate_limit_storage_key key) s le ∙ ap (survive dl) e ∙ ground arith) w
