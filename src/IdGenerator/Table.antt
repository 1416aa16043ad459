-- ===== src/IdGenerator/Table.antt =====
-- The identifiers of an IdGenerator (src/model/idgen.cpp) tell the names apart.
use text.Mathlib.Text.{◌==◌ as str_eq}
use text.Mathlib.TextEquality.{eq_iff}
use mathlib.Core.Path.{subst}
use rules_analyzer.Base.{
  ℕ, ◌+◌, ◌^◌, ◌≤◌, ◌<◌, ◌≡◌, refl, ◌∙◌, sym, leb, ◌∷◌, Option, none, some, arith, String, ok, Bool,
  Outcome, ◌⊎◌, ap, err, Bool-cases, inl, inr, true, false,
}
use rules_analyzer.Cache.{get}
use rules_analyzer.IdGenerator.{
  IdGenerator, IdFault, id_overflow, raised, allocate, found_or, get_id,
}

-- Every identifier of the table lies below the next one, which a small bound keeps from wrapping, and
-- no two names have the same.
pub record IsWellFormed (g : IdGenerator) : Type 0 where
  pub starts : 1 ≤ g.next_id
  pub small : g.ubound < 2 ^ 32
  pub below :
      (s : String) (id : ℕ)
      → get s g.id_table ≡ some id
      → (1 ≤ id) × (id < g.next_id) × (id < g.ubound)
  pub apart :
      (s t : String) (id : ℕ) → get s g.id_table ≡ some id → get t g.id_table ≡ some id → s ≡ t

module _ (str : String) (g : IdGenerator) where
  abbrev grown : IdGenerator
  grown = record (raised g) { id_table = (str, g.next_id) ∷ g.id_table }

  -- What the longer table says of a name.
  get-grown :
      (s : String) (id : ℕ)
      → get s grown.id_table ≡ some id
      → ((str ≡ s) × (g.next_id ≡ id)) ⊎ (get s g.id_table ≡ some id)
  unfolding get
  get-grown s id h = elim (Bool-cases (str_eq str s)) [
    | inl same ↦ let e : some g.next_id ≡ some id = rw same at h in inl ((eq_iff str s).0 same, cc)
    | inr other ↦ inr (rw other at h)
  ]

  get-kept :
      (s : String) (id : ℕ)
      → get str g.id_table ≡ none
      → get s g.id_table ≡ some id
      → get s grown.id_table ≡ some id
  unfolding get
  get-kept s id new h = elim (Bool-cases (str_eq str s)) [
    | inl same ↦
        let gone : get s g.id_table ≡ none = rw ((eq_iff str s).0 same) at new in
        absurd (cc (gone, h))
    | inr other ↦ rw other h
  ]

  module _ (w : IsWellFormed g) (room : leb g.ubound g.next_id ≡ false) where
    raised_next : grown.next_id ≡ g.next_id + 1
    raised_next = let small = w.small in let lt : g.next_id < g.ubound = ground arith in omega arith

    grown-below :
        (s : String) (id : ℕ)
        → get s grown.id_table ≡ some id
        → (1 ≤ id) × (id < grown.next_id) × (id < g.ubound)
    grown-below s id h =
        let next = raised_next in
        let lt : g.next_id < g.ubound = ground arith in
        let starts = w.starts in
        elim (get-grown s id h) [
          | inl (same, e) ↦ omega arith
          | inr old ↦ let (l, u, v) = w.below s id old in omega arith
        ]

    grown-apart :
        (s t : String) (id : ℕ)
        → get s grown.id_table ≡ some id
        → get t grown.id_table ≡ some id
        → s ≡ t
    grown-apart s t id h k = elim (get-grown s id h) [
      | inl (same, e) ↦ elim (get-grown t id k) [
        | inl (same', e') ↦ sym same ∙ same'
        | inr old ↦ let (l, u, v) = w.below t id old in absurd (omega arith)
      ]
      | inr old ↦ elim (get-grown t id k) [
        | inl (same', e') ↦ let (l, u, v) = w.below s id old in absurd (omega arith)
        | inr old' ↦ w.apart s t id old old'
      ]
    ]

    grown-IsWellFormed : IsWellFormed grown
    grown-IsWellFormed = record {
      starts = let next = raised_next in let starts = w.starts in omega arith;
      small = w.small;
      below = grown-below;
      apart = grown-apart;
    }

-- What a call leaves: a table as before that has the identifier under the name.
abbrev pub Answers : String → IdGenerator → ℕ → IdGenerator → Type 0
Answers str g id g' =
    IsWellFormed g'
    × (get str g'.id_table ≡ some id)
    × ((s : String) (i : ℕ) → get s g.id_table ≡ some i → get s g'.id_table ≡ some i)

allocated :
    (str : String) (g : IdGenerator) (full : Bool) (id : ℕ) (g' : IdGenerator)
    → leb g.ubound g.next_id ≡ full
    → IsWellFormed g
    → get str g.id_table ≡ none
    → allocate str g ≡ ok (id, g')
    → Answers str g id g'
unfolding get
allocated str g true id g' e w new h =
    let h' : ◌≡◌ {A = Outcome IdFault (ℕ × IdGenerator)} (err (id_overflow (raised g)))
        (ok (id, g')) =
      rw e at h in
    absurd (cc)
allocated str g false id g' e w new h =
    let h' : ◌≡◌ {A = Outcome IdFault (ℕ × IdGenerator)} (ok (g.next_id, grown str g))
        (ok (id, g')) =
      rw e at h in
    let same : g.next_id ≡ id = cc in
    let after : grown str g ≡ g' = cc in
    subst (Answers str g id) after (
      grown-IsWellFormed str g w e,
      rw ((eq_iff str str).1 refl) (ap some same),
      λ s i. get-kept str g s i new,
    )

found :
    (str : String) (g : IdGenerator) (o : Option ℕ) (id : ℕ) (g' : IdGenerator)
    → get str g.id_table ≡ o
    → IsWellFormed g
    → found_or o str g ≡ ok (id, g')
    → Answers str g id g'
found str g none id g' e w h = allocated str g _ id g' refl w e h
found str g (some i) id g' e w h =
    let same : i ≡ id = cc in
    let after : g ≡ g' = cc in subst (Answers str g id) after (w, e ∙ ap some same, λ s j k. k)

-- A successful call keeps the identifiers of different names apart and within the bounds, has the
-- name under the identifier that it returns, and changes no identifier that was given before.
pub get_id-Answers :
    (str : String) (g : IdGenerator) (id : ℕ) (g' : IdGenerator)
    → IsWellFormed g
    → get_id str g ≡ ok (id, g')
    → Answers str g id g'
unfolding get_id
get_id-Answers str g id g' w h = found str g _ id g' refl w h
