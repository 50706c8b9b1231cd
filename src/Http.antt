-- ===== src/Http.antt =====
-- The exceptions of app/shared/exceptions.py and app/shared/session/exceptions.py, and methods that
-- change a state and may raise: what was written before a raise stays written.
use iot_server.Prelude.{
  ◌≡◌, refl, ◌⊎◌, inl, inr, ℕ, String, Bool, Option, none, some, if◌then◌else◌,
}

-- `http status detail` is an HTTPException; `too_many n` is the 429 with the header Retry-After: n;
-- `python name` is any other exception, which the server answers by status 500.
pub data Exception : Type 0 where
  http : ℕ → String → Exception
  too_many : ℕ → Exception
  python : String → Exception

pub data Result {ℓ} (A : Type ℓ) : Type ℓ where
  ok : A → Result A
  err : Exception → Result A

-- app/shared/exceptions.py
abbrev pub not_found : String → Exception
not_found detail = http 404 detail

abbrev pub already_exists : String → Exception
already_exists detail = http 409 detail

abbrev pub bad_request : String → Exception
bad_request detail = http 400 detail

-- app/shared/session/exceptions.py
abbrev pub session_not_found : Exception
session_not_found = http 401 "Session not found"

abbrev pub session_already_exists : Exception
session_already_exists = http 409 "Conflict"

abbrev pub invalid_tag : Exception
invalid_tag = http 401 "Invalid request signature"

abbrev pub invalid_input : Exception
invalid_input = http 400 "Bad request"

abbrev pub Exec : Type 0 → Type 0 → Type 0
Exec S A = S → Result A × S

abbrev pub pure : {S A : Type 0} → A → Exec S A
pure a s = (ok a, s)

abbrev pub raise : {S A : Type 0} → Exception → Exec S A
raise e s = (err e, s)

abbrev pub gets : {S A : Type 0} → (S → A) → Exec S A
gets f s = (ok (f s), s)

abbrev pub modify : {S : Type 0} → (S → S) → Exec S (Unit {0})
modify f s = (ok tt, f s)

abbrev pub or_raise : {S A : Type 0} → Option A → Exception → Exec S A
or_raise none e = raise e
or_raise (some a) e = pure a

abbrev pub raise_if : {S : Type 0} → Bool → Exception → Exec S (Unit {0})
raise_if b e s = (if b then err e else ok tt, s)

-- The rest of a method, after a part that returned or raised.
abbrev pub continue : {S A B : Type 0} → (A → Exec S B) → Result A × S → Result B × S
continue f (ok a, s) = f a s
continue f (err e, s) = (err e, s)

infixl 5 ◌>>=◌ ◌>>◌
abbrev pub ◌>>=◌ : {S A B : Type 0} → Exec S A → (A → Exec S B) → Exec S B
◌>>=◌ m f s = continue f (m s)

abbrev pub ◌>>◌ : {S A B : Type 0} → Exec S A → Exec S B → Exec S B
◌>>◌ m k s = continue (λ _. k) (m s)

pub continue-ok :
    {S A B : Type 0} (f : A → Exec S B) (p : Result A × S) {a : A}
    → p.0 ≡ ok a
    → continue f p ≡ f a p.1
continue-ok f (ok a, s) e = cc
continue-ok f (err x, s) e = cc

pub continue-err :
    {S A B : Type 0} (f : A → Exec S B) (p : Result A × S) {x : Exception}
    → p.0 ≡ err x
    → continue f p ≡ (err x, p.1)
continue-err f (ok a, s) e = cc
continue-err f (err x, s) e = cc

pub Result-cases {ℓ} :
    {A : Type ℓ} (r : Result A) → ((a : A) × (r ≡ ok a)) ⊎ ((x : Exception) × (r ≡ err x))
Result-cases (ok a) = inl (a, refl)
Result-cases (err x) = inr (x, refl)
