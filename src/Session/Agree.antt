-- ===== src/Session/Agree.antt =====
-- Two tables of cells, sessions by entity and index entries by session id, and when they agree
-- (app/shared/session/repository.py).
use iot_server.Prelude.{
  ℕ, ◌≡◌, sym, ap, ◌∙◌, String, false, Option, none, some, arith, str_eq, eq_iff, eq_refl, inl, inr,
  Bool-cases, Option-cases, if◌then◌else◌,
}
use iot_server.Valkey.{Cell, survive, expiring, kept}
use iot_server.Session.Models.{Codec, EntitySessionData}

abbrev pub Table : Type 0
Table = String → Option Cell

abbrev pub upd : Table → String → Option Cell → Table
upd f k c j = if str_eq k j then c else f j

-- The session that a cell `c` under the entity `id` holds, with its index entry.
pub record Held (codec : Codec EntitySessionData) (idx : Table) (id : String) (c : Cell)
    : Type 0 where
  pub d : EntitySessionData
  pub dumped : c.value ≡ codec.dump d
  pub owner : d.entity_id ≡ id
  pub named : str_eq id "" ≡ false
  pub index : idx d.session_id ≡ some (record { value = id; deadline = c.deadline })

-- The session that an index entry `c` under the session id `sid` leads to.
pub record Backed (codec : Codec EntitySessionData) (ent : Table) (sid : String) (c : Cell)
    : Type 0 where
  pub d : EntitySessionData
  pub entity : ent c.value ≡ some (record { value = codec.dump d; deadline = c.deadline })
  pub session : d.session_id ≡ sid

pub record Agree (codec : Codec EntitySessionData) (ent idx : Table) : Type 0 where
  pub held : (id : String) (c : Cell) → ent id ≡ some c → Held codec idx id c
  pub backed : (sid : String) (c : Cell) → idx sid ≡ some c → Backed codec ent sid c

-- Two models with one text are one.
dump_injective :
    (codec : Codec EntitySessionData) (a b : EntitySessionData)
    → codec.dump a ≡ codec.dump b
    → a ≡ b
dump_injective codec a b e = cc (ap codec.load e, codec.load-dump a, codec.load-dump b)

survive-some : (t : ℕ) (a b : Cell) → survive t (some a) ≡ some b → a ≡ b
survive-some t a b e = ground arith

module _ (codec : Codec EntitySessionData) (ent idx : Table) (inv : Agree codec ent idx) where
  module _ (d : EntitySessionData) (dl : ℕ) (named : str_eq d.entity_id "" ≡ false)
      (free : ent d.entity_id ≡ none) (fresh : idx d.session_id ≡ none) where
    add-Held :
        (id : String) (c : Cell)
        → upd ent d.entity_id (expiring (codec.dump d) dl) id ≡ some c
        → Held codec (upd idx d.session_id (expiring d.entity_id dl)) id c
    add-Held id c e = elim (Bool-cases (str_eq d.entity_id id)) [
      | inl same ↦ record {
        d = d;
        dumped = ground arith;
        owner = (eq_iff _ _).0 same;
        named = rw ((eq_iff _ _).0 same) at named;
        index = ground (arith, eq_refl d.session_id, eq_iff d.entity_id id);
      }
      | inr other ↦
          let h : Held codec idx id c = inv.held id c (ground arith) in
          record {
            d = h.d;
            dumped = h.dumped;
            owner = h.owner;
            named = h.named;
            index = ground (arith, h.index, eq_iff d.session_id h.d.session_id);
          }
    ]

    add-Backed :
        (sid : String) (c : Cell)
        → upd idx d.session_id (expiring d.entity_id dl) sid ≡ some c
        → Backed codec (upd ent d.entity_id (expiring (codec.dump d) dl)) sid c
    add-Backed sid c e = elim (Bool-cases (str_eq d.session_id sid)) [
      | inl same ↦ record {
        d = d;
        entity = ground (arith, eq_refl d.entity_id);
        session = (eq_iff _ _).0 same;
      }
      | inr other ↦
          let h : Backed codec ent sid c = inv.backed sid c (ground arith) in
          record {
            d = h.d;
            entity = ground (arith, h.entity, eq_iff d.entity_id c.value);
            session = h.session;
          }
    ]

    pub Agree-add :
        Agree codec
          (upd ent d.entity_id (expiring (codec.dump d) dl))
          (upd idx d.session_id (expiring d.entity_id dl))
    Agree-add = record { held = add-Held; backed = add-Backed }

  module _ (d : EntitySessionData) (c₀ : Cell) (there : ent d.entity_id ≡ some c₀)
      (dumped : c₀.value ≡ codec.dump d) where
    own_index : idx d.session_id ≡ some (record { value = d.entity_id; deadline = c₀.deadline })
    own_index =
        let h : Held codec idx d.entity_id c₀ = inv.held d.entity_id c₀ there in
        cc (h.index, dump_injective codec h.d d (sym h.dumped ∙ dumped))

    remove-Held :
        (id : String) (c : Cell)
        → upd ent d.entity_id none id ≡ some c
        → Held codec (upd idx d.session_id none) id c
    remove-Held id c e =
        let h : Held codec idx id c = inv.held id c (ground arith) in
        record {
          d = h.d;
          dumped = h.dumped;
          owner = h.owner;
          named = h.named;
          index = ground (
            arith,
            h.index,
            own_index,
            eq_iff d.session_id h.d.session_id,
            eq_iff d.entity_id id,
          );
        }

    remove-Backed :
        (sid : String) (c : Cell)
        → upd idx d.session_id none sid ≡ some c
        → Backed codec (upd ent d.entity_id none) sid c
    remove-Backed sid c e =
        let h : Backed codec ent sid c = inv.backed sid c (ground arith) in
        record {
          d = h.d;
          session = h.session;
          entity = ground (
            arith,
            h.entity,
            h.session,
            dump_injective codec h.d d,
            eq_iff d.session_id sid,
            eq_iff d.entity_id c.value,
          );
        }

    pub Agree-remove : Agree codec (upd ent d.entity_id none) (upd idx d.session_id none)
    Agree-remove = record { held = remove-Held; backed = remove-Backed }

    module _ (d' : EntitySessionData) (same_session : d'.session_id ≡ d.session_id)
        (same_owner : d'.entity_id ≡ d.entity_id) where
      touch-Held :
          (id : String) (c : Cell)
          → upd ent d.entity_id (kept (some c₀) (codec.dump d')) id ≡ some c
          → Held codec idx id c
      touch-Held id c e = elim (Bool-cases (str_eq d.entity_id id)) [
        | inl same ↦
            let h : Held codec idx d.entity_id c₀ = inv.held d.entity_id c₀ there in
            record {
              d = d';
              dumped = ground arith;
              owner = same_owner ∙ (eq_iff _ _).0 same;
              named = rw ((eq_iff _ _).0 same) at h.named;
              index = ground (arith, own_index, eq_iff d.entity_id id);
            }
        | inr other ↦ inv.held id c (ground arith)
      ]

      touch-Backed :
          (sid : String) (c : Cell)
          → idx sid ≡ some c
          → Backed codec (upd ent d.entity_id (kept (some c₀) (codec.dump d'))) sid c
      touch-Backed sid c e =
          let h : Backed codec ent sid c = inv.backed sid c e in
          elim (Bool-cases (str_eq d.entity_id c.value)) [
            | inl same ↦ record {
              d = d';
              entity = ground (arith, h.entity, eq_iff d.entity_id c.value);
              session = ground (
                arith,
                h.entity,
                h.session,
                dump_injective codec h.d d,
                eq_iff d.entity_id c.value,
              );
            }
            | inr other ↦ record { d = h.d; entity = ground (arith, h.entity); session = h.session }
          ]

      pub Agree-touch : Agree codec (upd ent d.entity_id (kept (some c₀) (codec.dump d'))) idx
      Agree-touch = record { held = touch-Held; backed = touch-Backed }

  survive-Held :
      (t : ℕ) (id : String) (c : Cell)
      → survive t (ent id) ≡ some c
      → Held codec (λ sid. survive t (idx sid)) id c
  survive-Held t id c e = elim (Option-cases (ent id)) [
    | inl gone ↦ cc (rw gone at e)
    | inr (c₁, there) ↦
        let h : Held codec idx id c₁ = inv.held id c₁ there in
        let same : c₁ ≡ c = survive-some t c₁ c (rw there at e) in
        record {
          d = h.d;
          dumped = cc (h.dumped, same);
          owner = h.owner;
          named = h.named;
          index = rw h.index (ground (arith, same, rw there at e));
        }
  ]

  survive-Backed :
      (t : ℕ) (sid : String) (c : Cell)
      → survive t (idx sid) ≡ some c
      → Backed codec (λ id. survive t (ent id)) sid c
  survive-Backed t sid c e = elim (Option-cases (idx sid)) [
    | inl gone ↦ cc (rw gone at e)
    | inr (c₁, there) ↦
        let h : Backed codec ent sid c₁ = inv.backed sid c₁ there in
        let same : c₁ ≡ c = survive-some t c₁ c (rw there at e) in
        record {
          d = h.d;
          session = h.session;
          entity = rw (← same, h.entity) (ground (arith, same, rw there at e));
        }
  ]

  pub Agree-survive : (t : ℕ) → Agree codec (λ id. survive t (ent id)) (λ sid. survive t (idx sid))
  Agree-survive t = record { held = survive-Held t; backed = survive-Backed t }
