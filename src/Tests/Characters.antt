-- ===== src/Tests/Characters.antt =====
-- The numbers of a text's characters, for the stand-ins of the libraries that read and write bytes.
use Prim.Native.Nat.{compare, Ordering}
use Prim.Native.Char.{Char, char, code, nul, IsLt, IsScalar}
use iot_server.Prelude.{ℕ, ◌≡◌, refl, ap, String, Option, none, some, List, [], ◌∷◌}

abbrev BothLess : Ordering → Ordering → Type 0
BothLess Ordering.lt o = IsLt o
BothLess Ordering.eq _ = ⊥
BothLess Ordering.gt _ = ⊥

abbrev ScalarBy : Ordering → Ordering → Ordering → Type 0
ScalarBy Ordering.lt _ _ = Unit
ScalarBy Ordering.eq o p = BothLess o p
ScalarBy Ordering.gt o p = BothLess o p

abbrev pick_both : (o p : Ordering) → Option (BothLess o p)
pick_both Ordering.lt Ordering.lt = some tt
pick_both Ordering.lt Ordering.eq = none
pick_both Ordering.lt Ordering.gt = none
pick_both Ordering.eq p = none
pick_both Ordering.gt p = none

abbrev pick : (n o p : Ordering) → Option (ScalarBy n o p)
pick Ordering.lt o p = some tt
pick Ordering.eq o p = pick_both o p
pick Ordering.gt o p = pick_both o p

pick_both-any : (o p : Ordering) (x : BothLess o p) → pick_both o p ≡ some x
pick_both-any Ordering.lt Ordering.lt x = refl
pick_both-any Ordering.lt Ordering.eq x = absurd x
pick_both-any Ordering.lt Ordering.gt x = absurd x
pick_both-any Ordering.eq p x = absurd x
pick_both-any Ordering.gt p x = absurd x

pick-any : (n o p : Ordering) (x : ScalarBy n o p) → pick n o p ≡ some x
pick-any Ordering.lt o p x = refl
pick-any Ordering.eq o p x = pick_both-any o p x
pick-any Ordering.gt o p x = pick_both-any o p x

abbrev char_if : (n : ℕ) → Option (IsScalar n) → Char
char_if n none = nul
char_if n (some p) = char n p

abbrev char_of : ℕ → Char
char_of n = char_if n (pick (compare n 55296) (compare 57343 n) (compare n 1114112))

char_of-code : (c : Char) → char_of (code c) ≡ c
char_of-code (char n p) =
    ap (char_if n) (pick-any (compare n 55296) (compare 57343 n) (compare n 1114112) p)

abbrev pub codes : String → List ℕ
codes String.[] = []
codes (String.◌∷◌ c s) = code c ∷ codes s

abbrev pub of_codes : List ℕ → String
of_codes [] = ""
of_codes (n ∷ ns) = String.◌∷◌ (char_of n) (of_codes ns)

pub of_codes-codes : (s : String) → of_codes (codes s) ≡ s
of_codes-codes String.[] = refl
of_codes-codes (String.◌∷◌ c s) = rw (char_of-code c, of_codes-codes s) refl
