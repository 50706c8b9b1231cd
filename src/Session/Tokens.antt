-- ===== src/Session/Tokens.antt =====
-- The access tokens of `JWEHandler` (app/shared/session/security.py), made and read.
use iot_server.Prelude.{
  ℕ, ◌+◌, ◌*◌, ◌<◌, ◌≡◌, refl, String, some, [], ◌∷◌, ltb, str_eq, eq_iff, ap, ◌∙◌, arith,
  if◌then◌else◌,
}
use iot_server.Http.{ok, err, python}
use iot_server.Session.Security.{
  Bytes, Json, number, Claims, claim, with_claim, JweLibrary, unexpired, encrypt, decrypt,
}

claim-with_claim :
    (k j : String) (x : Json) (c : Claims)
    → claim j (with_claim k x c) ≡ (if str_eq j k then some x else claim j c)
unfolding claim with_claim
claim-with_claim k j x [] = refl
claim-with_claim k j x ((i, y) ∷ rest) =
    ground (arith, eq_iff k i, eq_iff j i, eq_iff j k, claim-with_claim k j x rest)

-- The claims as they are encrypted.
abbrev pub stamped : ℕ → ℕ → Claims → Claims
stamped now minutes claims =
    with_claim "iat" (number now) (with_claim "exp" (number (now + minutes * 60)) claims)

claim-stamped :
    (now minutes : ℕ) (claims : Claims)
    → claim "exp" (stamped now minutes claims) ≡ some (number (now + minutes * 60))
claim-stamped now minutes claims = simp claim-with_claim

unexpired-stamped :
    (now t minutes : ℕ) (claims : Claims)
    → 0 < minutes
    → unexpired t (some (stamped now minutes claims)) ≡ (
        if ltb t (now + minutes * 60)
        then ok (stamped now minutes claims)
        else err (python "JWEError"))
unfolding unexpired
unexpired-stamped now t minutes claims h = ground (arith, claim-stamped now minutes claims)

-- A token made at `now` for some minutes is accepted before its expiry, with the claims that were
-- given, the issue time and the expiry, and refused from then on.
pub decrypt-encrypt :
    (lib : JweLibrary) (key : Bytes) (now t minutes : ℕ) (claims : Claims)
    → 0 < minutes
    → decrypt lib key t (encrypt lib key now claims minutes) ≡ (
        if ltb t (now + minutes * 60)
        then ok (stamped now minutes claims)
        else err (python "JWEError"))
unfolding decrypt encrypt
decrypt-encrypt lib key now t minutes claims h =
    ap (unexpired t) (lib.decrypt-encrypt key (stamped now minutes claims))
    ∙ unexpired-stamped now t minutes claims h
