-- ===== src/Schema/Relations.antt =====
-- The relationships of app/database/model.py.
use mathlib.Core.List.{Memᴰ}
use mathlib.Core.List.Memᴰ
use mathlib.Core.Path.{subst}
use iot_server.Prelude.{
  ◌≡◌, refl, sym, arith, String, Bool, true, false, Option, none, some, List, [], ◌∷◌, str_eq,
  eq_iff, ◌&&◌, ◌||◌, if◌then◌else◌, Option-cases, inl, inr,
}
use iot_server.Schema.{Field, Relationship, Class}
use iot_server.Schema.Declared.{declared}

unfoldable pub find_class : String → List Class → Option Class
find_class table [] = none
find_class table (c ∷ cs) = if str_eq c.table_name table then some c else find_class table cs

unfoldable pub find_relationship : String → List Relationship → Option Relationship
find_relationship name [] = none
find_relationship name (r ∷ rs) = if str_eq r.name name then some r else find_relationship name rs

-- Whether a field refers to the table.
unfoldable pub refers_to : String → List Field → Bool
refers_to table [] = false
refers_to table (f ∷ fs) = elim f.target [
  | none ↦ refers_to table fs
  | some t ↦ str_eq t.0 table || refers_to table fs
]

unfoldable pub leads_back : Class → Relationship → Class → Option Relationship → Bool
unfolding refers_to
leads_back c r d none = false
leads_back c r d (some q) =
    str_eq q.table c.table_name
    && str_eq q.back_populates r.name
    && (refers_to d.table_name c.fields || refers_to c.table_name d.fields)

unfoldable pub is_mutual : Class → Relationship → Option Class → Bool
unfolding leads_back find_relationship
is_mutual c r none = false
is_mutual c r (some d) = leads_back c r d (find_relationship r.back_populates d.relationships)

unfoldable pub each_mutual : List Class → Class → List Relationship → Bool
unfolding is_mutual find_class
each_mutual all c [] = true
each_mutual all c (r ∷ rs) = is_mutual c r (find_class r.table all) && each_mutual all c rs

unfoldable pub all_mutual : List Class → List Class → Bool
unfolding each_mutual
all_mutual all [] = true
all_mutual all (c ∷ cs) = each_mutual all c c.relationships && all_mutual all cs

declared_mutual : all_mutual declared declared ≡ true
unfolding all_mutual declared
declared_mutual = refl

each_mutual-Mem :
    (all : List Class) (c : Class) (rs : List Relationship) (r : Relationship)
    → each_mutual all c rs ≡ true
    → Memᴰ r rs
    → is_mutual c r (find_class r.table all) ≡ true
unfolding each_mutual
each_mutual-Mem all c [] r h m = absurd (Memᴰ.not-nil m)
each_mutual-Mem all c (q ∷ rs) r h m = elim (Memᴰ.cases_cons m) [
  | inl same ↦
      subst (λ x. is_mutual c x (find_class x.table all) ≡ true) (sym same) (ground (arith, h))
  | inr later ↦ each_mutual-Mem all c rs r (ground (arith, h)) later
]

all_mutual-Mem :
    (all cs : List Class) (c : Class)
    → all_mutual all cs ≡ true
    → Memᴰ c cs
    → each_mutual all c c.relationships ≡ true
unfolding all_mutual
all_mutual-Mem all [] c h m = absurd (Memᴰ.not-nil m)
all_mutual-Mem all (d ∷ cs) c h m = elim (Memᴰ.cases_cons m) [
  | inl same ↦ subst (λ x. each_mutual all x x.relationships ≡ true) (sym same) (ground (arith, h))
  | inr later ↦ all_mutual-Mem all cs c (ground (arith, h)) later
]

leads_back-some :
    (c : Class) (r : Relationship) (d : Class) (found : Option Relationship)
    → leads_back c r d found ≡ true
    → (q : Relationship) × (found ≡ some q)
      × (q.table ≡ c.table_name)
      × (q.back_populates ≡ r.name)
      × (refers_to d.table_name c.fields || refers_to c.table_name d.fields ≡ true)
unfolding leads_back
leads_back-some c r d none h = cc
leads_back-some c r d (some q) h = (
  q,
  refl,
  ground (arith, h, eq_iff q.table c.table_name),
  ground (arith, h, eq_iff q.back_populates r.name),
  ground (arith, h),
)

-- Each relationship of a class names a class and a relationship of it that leads back, and one of the two
-- tables has a foreign key to the other.
pub declared-mutual :
    (c : Class) (r : Relationship)
    → Memᴰ c declared
    → Memᴰ r c.relationships
    → (d : Class) × (q : Relationship) × (find_class r.table declared ≡ some d)
      × (find_relationship r.back_populates d.relationships ≡ some q)
      × (q.table ≡ c.table_name)
      × (q.back_populates ≡ r.name)
      × (refers_to d.table_name c.fields || refers_to c.table_name d.fields ≡ true)
unfolding is_mutual
declared-mutual c r m n =
    let h =
      each_mutual-Mem declared c c.relationships r
        (all_mutual-Mem declared declared c declared_mutual m) n in
    elim (Option-cases (find_class r.table declared)) [
      | inl none_ ↦ cc (rw none_ at h)
      | inr (d, found) ↦
          let (q, there, table, back, key) =
            leads_back-some c r d (find_relationship r.back_populates d.relationships)
              (rw found at h) in
          (d, q, found, there, table, back, key)
    ]
