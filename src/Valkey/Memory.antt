-- ===== src/Valkey/Memory.antt =====
-- A server that keeps its cells in a function from keys: it shows that the laws of `Valkey` can be
-- met, and the tests run on it.
use text.Mathlib.TextLemmas.{cons-ne-nil}
use iot_server.Prelude.{
  str_ne, ℕ, zero, suc, ap, ◌+◌, ◌≤◌, ◌<◌, ◌≡◌, refl, String, Bool, true, false, Option, none, some,
  arith, str_eq, if◌then◌else◌,
}
use iot_server.Valkey.{Cell, survive, expiring, kept, bumped, Numerals, with_deadline, Valkey}

abbrev pub Cells : Type 0
Cells = String → Option Cell

abbrev pub look : ℕ → String → Cells → Option Cell
look t k s = survive t (s k)

abbrev pub write : String → Option Cell → Cells → Cells
write k c s j = if str_eq k j then c else s j

-- Numbers as tallies: a mark, and then a stroke for each unit.
abbrev pub strokes : ℕ → String
strokes zero = ""
strokes (suc n) = String.◌∷◌ "1" (strokes n)

abbrev pub count_strokes : String → ℕ
count_strokes String.[] = zero
count_strokes (String.◌∷◌ c s) = suc (count_strokes s)

abbrev pub read_tally : String → Option ℕ
read_tally String.[] = none
read_tally (String.◌∷◌ c s) = some (count_strokes s)

abbrev pub write_tally : ℕ → String
write_tally n = String.◌∷◌ "#" (strokes n)

pub count_strokes-strokes : (n : ℕ) → count_strokes (strokes n) ≡ n
count_strokes-strokes zero = refl
count_strokes-strokes (suc n) = ap suc (count_strokes-strokes n)

pub read-write : (n : ℕ) → read_tally (write_tally n) ≡ some n
read-write n = ap some (count_strokes-strokes n)

pub write-ne-empty : (n : ℕ) → str_eq (write_tally n) "" ≡ false
write-ne-empty n = str_ne _ _ (cons-ne-nil "#" (strokes n))

abbrev pub tallies : Numerals
tallies = record {
  numeral = write_tally;
  number = read_tally;
  number-numeral = read-write;
  numeral-ne-empty = write-ne-empty;
}

abbrev pub run_incr : String → Cells → Option (ℕ × Cell) → Option ℕ × Cells
run_incr k s none = (none, s)
run_incr k s (some (n, c)) = (some n, write k (some c) s)

pub survive-survive :
    (now t : ℕ) (o : Option Cell) → now ≤ t → survive t o ≡ survive t (survive now o)
survive-survive now t none h = refl
survive-survive now t (some c) h = ground arith

pub survive-kept :
    (now : ℕ) (v : String) (o : Option Cell)
    → survive now (kept (survive now o) v) ≡ kept (survive now o) v
survive-kept now v none = refl
survive-kept now v (some c) = ground arith

survive-bumped :
    (now : ℕ) (o : Option Cell) (n : ℕ) (c : Cell)
    → bumped tallies (survive now o) ≡ some (n, c)
    → survive now (some c) ≡ some c
survive-bumped now none n c h = ground arith
survive-bumped now (some d) n c h = ground arith

pub survive-with_deadline :
    (now ttl : ℕ) (o : Option Cell)
    → 0 < ttl
    → survive now (with_deadline (now + ttl) o) ≡ with_deadline (now + ttl) o
survive-with_deadline now ttl none h = refl
survive-with_deadline now ttl (some c) h = ground arith

pub look-write :
    (now : ℕ) (k j : String) (c : Option Cell) (s : Cells)
    → survive now c ≡ c
    → look now j (write k c s) ≡ (if str_eq k j then c else look now j s)
look-write now k j c s h = ground arith

abbrev pub memory_incr : ℕ → String → Cells → Option ℕ × Cells
memory_incr now k s = run_incr k s (bumped tallies (look now k s))

abbrev pub memory_set_nx : ℕ → String → ℕ → String → Cells → Bool × Cells
memory_set_nx now k ttl v s = elim (look now k s) [
  | none ↦ (true, write k (expiring v (now + ttl)) s)
  | some _ ↦ (false, s)
]

pub expiring_survives :
    (now ttl : ℕ) (v : String)
    → 0 < ttl
    → survive now (expiring v (now + ttl)) ≡ expiring v (now + ttl)
expiring_survives now ttl v h = ground arith

pub memory_set_nx-new :
    (now ttl : ℕ) (k j : String) (v : String) (s : Cells)
    → 0 < ttl
    → look now k s ≡ none
    → ((memory_set_nx now k ttl v s).0 ≡ true)
      × (look now j (memory_set_nx now k ttl v s).1
          ≡ (if str_eq k j then expiring v (now + ttl) else look now j s))
memory_set_nx-new now ttl k j v s h e =
    rw (e, memory_set_nx)
      (refl, look-write now k j (expiring v (now + ttl)) s (expiring_survives now ttl v h))

pub memory_incr-number :
    (now : ℕ) (k j : String) (s : Cells) (n : ℕ) (c : Cell)
    → bumped tallies (look now k s) ≡ some (n, c)
    → ((memory_incr now k s).0 ≡ some n)
      × (look now j (memory_incr now k s).1 ≡ (if str_eq k j then some c else look now j s))
memory_incr-number now k j s n c e =
    rw e (refl, look-write now k j (some c) s (survive-bumped now (s k) n c e))

abbrev pub memory : Valkey
memory = record {
  Store = Cells;
  numerals = tallies;
  cell = look;
  setex = λ now k ttl v s. write k (expiring v (now + ttl)) s;
  set_nx = memory_set_nx;
  set_keepttl = λ now k v s. write k (kept (look now k s) v) s;
  delete = λ now k s. write k none s;
  incr = memory_incr;
  expire = λ now k ttl s. write k (with_deadline (now + ttl) (look now k s)) s;
  cell-later = λ now t k s h. survive-survive now t (s k) h;
  cell-setex = λ now ttl k j v s h. look-write now k j _ s (expiring_survives now ttl v h);
  cell-set_nx = memory_set_nx-new;
  set_nx-taken = λ now ttl k v s c e. rw (e, memory_set_nx);
  cell-set_keepttl = λ now k j v s. look-write now k j _ s (survive-kept now v (s k));
  cell-delete = λ now k j s. look-write now k j none s refl;
  cell-incr = memory_incr-number;
  incr-text = λ now k s e. rw (e, memory_incr);
  cell-expire =
      λ now ttl k j s h. look-write now k j _ s (survive-with_deadline now ttl (look now k s) h);
}

-- A server with no keys.
abbrev pub no_cells : Cells
no_cells k = none
