-- ===== src/Tests/Encoding.antt =====
-- Lists of texts in one text, for the stand-ins of the JSON and base64 libraries.
use Prim.Native.Char.{Char, code}
use text.Mathlib.TextLemmas.{cons-ne-nil}
use iot_server.Prelude.{
  ℕ, ◌≡◌, ◌≢◌, refl, ap, ◌∙◌, String, Bool, true, false, Option, some, List, [], ◌∷◌, ◌==◌, not,
  if◌then◌else◌,
}
use iot_server.Valkey.Memory.{strokes, count_strokes, count_strokes-strokes}

-- A text with a mark before each character, and a mark at its end.
abbrev pub marked : String → String → String
marked String.[] rest = String.◌∷◌ "." rest
marked (String.◌∷◌ c s) rest = String.◌∷◌ "+" (String.◌∷◌ c (marked s rest))

abbrev pub write_all : List String → String
write_all [] = ""
write_all (s ∷ ss) = marked s (write_all ss)

abbrev pub on_first : Char → List String → List String
on_first c [] = String.◌∷◌ c "" ∷ []
on_first c (s ∷ ss) = String.◌∷◌ c s ∷ ss

abbrev pub is_more : Char → Bool
is_more m = not (code m == 46)

abbrev pub marked_end : Bool → List String → List String
marked_end more ss = if more then ss else "" ∷ ss

-- What follows a mark is a character if the mark says so.
abbrev pub read_from : Bool → String → List String
read_from character String.[] = []
read_from true (String.◌∷◌ c s) = on_first c (read_from false s)
read_from false (String.◌∷◌ m s) = marked_end (is_more m) (read_from (is_more m) s)

abbrev pub read_all : String → List String
read_all s = read_from false s

read-marked : (s rest : String) → read_from false (marked s rest) ≡ s ∷ read_from false rest
read-marked String.[] rest = refl
read-marked (String.◌∷◌ c s) rest = ap (on_first c) (read-marked s rest)

pub read-write : (ss : List String) → read_all (write_all ss) ≡ ss
read-write [] = refl
read-write (s ∷ ss) = read-marked s (write_all ss) ∙ ap (λ xs. s ∷ xs) (read-write ss)

pub write-ne-empty : (s : String) (ss : List String) → write_all (s ∷ ss) ≢ ""
write-ne-empty String.[] ss = cons-ne-nil _ _
write-ne-empty (String.◌∷◌ c s) ss = cons-ne-nil _ _

-- Bytes as a list of tallies.
abbrev pub byte_texts : List ℕ → List String
byte_texts [] = []
byte_texts (b ∷ bs) = strokes b ∷ byte_texts bs

abbrev pub text_bytes : List String → List ℕ
text_bytes [] = []
text_bytes (s ∷ ss) = count_strokes s ∷ text_bytes ss

text-byte : (bs : List ℕ) → text_bytes (byte_texts bs) ≡ bs
text-byte [] = refl
text-byte (b ∷ bs) = rw (count_strokes-strokes b, text-byte bs) refl

abbrev pub write_bytes : List ℕ → String
write_bytes bs = write_all (byte_texts bs)

abbrev pub read_bytes : String → Option (List ℕ)
read_bytes s = some (text_bytes (read_all s))

pub read-write-bytes : (bs : List ℕ) → read_bytes (write_bytes bs) ≡ some bs
read-write-bytes bs = ap some (ap text_bytes (read-write (byte_texts bs)) ∙ text-byte bs)
