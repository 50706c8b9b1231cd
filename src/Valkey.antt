-- ===== src/Valkey.antt =====
-- The Valkey server as the program uses it: the commands, and what the documentation of each says
-- about the cells that a client can observe. The server itself is not part of the repository, so
-- it is a parameter of every module that uses it.
pub mod Memory
use iot_server.Prelude.{
  ℕ, ◌-◌, ℤ, pos, negsuc, ◌+◌, ◌≤◌, ◌<◌, ◌≡◌, ◌≢◌, String, Bool, true, false, Option, none, some,
  ltb, str_eq, if◌then◌else◌,
}

-- A live value, which is a text, and the second at which it expires, if it does.
pub record Cell : Type 0 where
  pub value : String
  pub deadline : Option ℕ

-- What a cell seen earlier is at the second `t`.
abbrev pub survive : ℕ → Option Cell → Option Cell
survive t none = none
survive t (some c) = elim c.deadline [ none ↦ some c | some d ↦ if ltb t d then some c else none ]

abbrev pub expiring : String → ℕ → Option Cell
expiring v d = some (record { value = v; deadline = some d })

-- SET with KEEPTTL: the old deadline stays; a key that was not there gets none.
abbrev pub kept : Option Cell → String → Option Cell
kept none v = some (record { value = v; deadline = none })
kept (some c) v = some (record { value = v; deadline = c.deadline })

-- EXPIRE: a missing key stays missing.
abbrev pub with_deadline : ℕ → Option Cell → Option Cell
with_deadline d none = none
with_deadline d (some c) = some (record { value = c.value; deadline = some d })

-- TTL: the seconds left, -1 for a key with no deadline and -2 for a missing key.
abbrev pub ttl : ℕ → Option Cell → ℤ
ttl now none = negsuc 1
ttl now (some c) = elim c.deadline [ none ↦ negsuc 0 | some d ↦ pos (d - now) ]

-- The texts of numbers, as INCR writes them and as it, and Python's `int`, reads them.
pub record Numerals : Type 0 where
  pub numeral : ℕ → String
  pub number : String → Option ℕ
  pub number-numeral : (n : ℕ) → number (numeral n) ≡ some n
  pub numeral-ne-empty : (n : ℕ) → str_eq (numeral n) "" ≡ false

-- INCR: a missing key counts from 0; a text that is no number is an error. The deadline stays.
abbrev pub bumped : Numerals → Option Cell → Option (ℕ × Cell)
bumped ns none = some (1, record { value = ns.numeral 1; deadline = none })
bumped ns (some c) = elim (ns.number c.value) [
  | none ↦ none
  | some n ↦ some (n + 1, record { value = ns.numeral (n + 1); deadline = c.deadline })
]

-- The first argument of a command is the second at which it runs.
pub record Valkey : Type 1 where
  pub Store : Type 0
  pub numerals : Numerals
  -- what GET and TTL show of a key
  pub cell : ℕ → String → Store → Option Cell
  pub setex : ℕ → String → ℕ → String → Store → Store
  pub set_nx : ℕ → String → ℕ → String → Store → Bool × Store
  pub set_keepttl : ℕ → String → String → Store → Store
  pub delete : ℕ → String → Store → Store
  pub incr : ℕ → String → Store → Option ℕ × Store
  pub expire : ℕ → String → ℕ → Store → Store
  pub cell-later :
      (now t : ℕ) (k : String) (s : Store) → now ≤ t → cell t k s ≡ survive t (cell now k s)
  pub cell-setex :
      (now span : ℕ) (k j : String) (v : String) (s : Store)
      → 0 < span
      → cell now j (setex now k span v s)
        ≡ (if str_eq k j then expiring v (now + span) else cell now j s)
  pub cell-set_nx :
      (now span : ℕ) (k j : String) (v : String) (s : Store)
      → 0 < span
      → cell now k s ≡ none
      → ((set_nx now k span v s).0 ≡ true)
        × (cell now j (set_nx now k span v s).1
            ≡ (if str_eq k j then expiring v (now + span) else cell now j s))
  pub set_nx-taken :
      (now span : ℕ) (k : String) (v : String) (s : Store) (c : Cell)
      → cell now k s ≡ some c
      → set_nx now k span v s ≡ (false, s)
  pub cell-set_keepttl :
      (now : ℕ) (k j : String) (v : String) (s : Store)
      → cell now j (set_keepttl now k v s)
        ≡ (if str_eq k j then kept (cell now k s) v else cell now j s)
  pub cell-delete :
      (now : ℕ) (k j : String) (s : Store)
      → cell now j (delete now k s) ≡ (if str_eq k j then none else cell now j s)
  pub cell-incr :
      (now : ℕ) (k j : String) (s : Store) (n : ℕ) (c : Cell)
      → bumped numerals (cell now k s) ≡ some (n, c)
      → ((incr now k s).0 ≡ some n)
        × (cell now j (incr now k s).1 ≡ (if str_eq k j then some c else cell now j s))
  pub incr-text :
      (now : ℕ) (k : String) (s : Store)
      → bumped numerals (cell now k s) ≡ none
      → incr now k s ≡ (none, s)
  pub cell-expire :
      (now span : ℕ) (k j : String) (s : Store)
      → 0 < span
      → cell now j (expire now k span s)
        ≡ (if str_eq k j then with_deadline (now + span) (cell now k s) else cell now j s)
