-- ===== src/Network/Zones.antt =====
-- The zones of a network (src/model/network.cpp): a source and a destination zone have the same
-- identifier just when they have the same name.
mod Tests
use mathlib.Core.Path.{subst}
use text.Mathlib.Text.{◌==◌ as str_eq}
use text.Mathlib.TextEquality.{eq_iff}
use rules_analyzer.Base.{
  ℕ, ◌+◌, ◌≡◌, ◌≢◌, ◌↔◌, ◌⊎◌, inl, inr, refl, ap, ◌∙◌, sym, none, some, Option, String, Outcome, ok,
  err, ◌>>=◌, [], ◌∷◌, arith, Bool-cases, true,
}
use rules_analyzer.Cache.{Cache, get}
use rules_analyzer.Cache.Laws.{set-new}
use rules_analyzer.IdGenerator.{IdGenerator, IdFault, get_id}
use rules_analyzer.IdGenerator.Table.{IsWellFormed, Answers, get_id-Answers}
use rules_analyzer.Range.{Range}
use rules_analyzer.Domain.{DomainType, src_zone, dst_zone, create_singleton}
use rules_analyzer.Zone.{Zone, create_zone}
use rules_analyzer.Network.{Network, NetworkFault}
use rules_analyzer.Network.Register.{
  Call, Slot, src_zone_slot, dst_zone_slot, allocate, stored, store, found_or_make, kept_ids,
  register, ids_of, zone_id, with_id, register_src_zone, register_dst_zone,
}
use rules_analyzer.Network.Register.Slots.{Registered, register-Registered}

-- A zone that is not the zone `any` has the range of the identifier of its name.
abbrev pub HasIds : DomainType → Cache Zone → IdGenerator → Type 0
HasIds dt zones g =
    (n : String) (z : Zone)
    → get n zones ≡ some z
    → (n ≡ "any")
      ⊎ ((id : ℕ) × (get n g.id_table ≡ some id) × (z.value.range ≡ create_singleton dt id))

pub record IsZoned (nw : Network) : Type 0 where
  pub ids : IsWellFormed nw.zone_ids
  pub sources : HasIds src_zone nw.src_zones nw.zone_ids
  pub destinations : HasIds dst_zone nw.dst_zones nw.zone_ids

abbrev bumped : IdGenerator → Network → Network
bumped ids nw = record nw { zone_ids = ids; next_address = nw.next_address + 1 }

module _ (dt : DomainType) (slot : Slot Zone) where
  open slot use {read, write}

  abbrev new_zone : String → ℕ → Network → Zone
  new_zone name id nw = create_zone dt nw.next_address name id

  abbrev make_zone : String → Call Zone
  make_zone name = with_id (zone_id name) (λ a id nw. create_zone dt a name id)

  abbrev after_make : String → ℕ → IdGenerator → Network → Network
  after_make name id ids nw =
      write ((name, new_zone name id nw) ∷ read (bumped ids nw)) (bumped ids nw)

  -- A zone that is registered is there before, or is made with the identifier of its name.
  abbrev Step : String → Zone → Network → Network → Type 0
  Step name z nw nw' =
      ((get name (read nw) ≡ some z) × (nw ≡ nw'))
      ⊎ ((id : ℕ) × (ids : IdGenerator) × (get_id name nw.zone_ids ≡ ok (id, ids))
          × (new_zone name id nw ≡ z)
          × (after_make name id ids nw ≡ nw'))

  -- The call behind the generator.
  abbrev from_ids :
      String → Network → Outcome IdFault (ℕ × IdGenerator) → Outcome NetworkFault (Zone × Network)
  from_ids name nw o = kept_ids (λ ids nw. record nw { zone_ids = ids }) nw o >>= λ r.
      allocate r.1 >>= λ p. ok (create_zone dt p.0 name r.0, p.1)

  module _ (stable : (ids : IdGenerator) (nw : Network) → read (bumped ids nw) ≡ read nw) where
    stored_new :
        (name : String) (id : ℕ) (ids : IdGenerator) (nw : Network)
        → get name (read nw) ≡ none
        → store slot name (new_zone name id nw) (bumped ids nw)
          ≡ ok (new_zone name id nw, after_make name id ids nw)
    unfolding store
    stored_new name id ids nw new = ap (stored slot (new_zone name id nw) (bumped ids nw)) (
        set-new name (new_zone name id nw) (read (bumped ids nw))
          (ap (get name) (stable ids nw) ∙ new))

    made-Step :
        (name : String) (z : Zone) (nw nw' : Network) (o : Outcome IdFault (ℕ × IdGenerator))
        → get_id name nw.zone_ids ≡ o
        → get name (read nw) ≡ none
        → (from_ids name nw o >>= λ p. store slot name p.0 p.1) ≡ ok (z, nw')
        → Step name z nw nw'
    made-Step name z nw nw' (err fault) e new h = absurd (cc)
    made-Step name z nw nw' (ok (id, ids)) e new h =
        let done : ◌≡◌ {A = Outcome NetworkFault (Zone × Network)}
            (ok (new_zone name id nw, after_make name id ids nw)) (ok (z, nw')) =
          sym (stored_new name id ids nw new) ∙ h in
        let same : new_zone name id nw ≡ z = cc in
        let after : after_make name id ids nw ≡ nw' = cc in inr (id, ids, e, same, after)

    zone-Step :
        (name : String) (z : Zone) (nw nw' : Network) (o : Option Zone)
        → get name (read nw) ≡ o
        → found_or_make slot o name (make_zone name) nw ≡ ok (z, nw')
        → Step name z nw nw'
    unfolding zone_id
    zone-Step name z nw nw' none e h = made-Step name z nw nw' (get_id name nw.zone_ids) refl e h
    zone-Step name z nw nw' (some y) e h =
        let same : y ≡ z = cc in let after : nw ≡ nw' = cc in inl (e ∙ ap some same, after)

-- Both functions that register a zone take such a step.
src-Step :
    (name : String) (z : Zone) (nw nw' : Network)
    → register_src_zone name nw ≡ ok (z, nw')
    → Step src_zone src_zone_slot name z nw nw'
unfolding register_src_zone register
src-Step name z nw nw' h = zone-Step src_zone src_zone_slot (λ ids nw. refl) name z nw nw' _ refl h

dst-Step :
    (name : String) (z : Zone) (nw nw' : Network)
    → register_dst_zone name nw ≡ ok (z, nw')
    → Step dst_zone dst_zone_slot name z nw nw'
unfolding register_dst_zone register
dst-Step name z nw nw' h = zone-Step dst_zone dst_zone_slot (λ ids nw. refl) name z nw nw' _ refl h

module _ (dt : DomainType) (zones : Cache Zone) (name : String) (id : ℕ) (g ids : IdGenerator) where
  -- A new identifier does not change those of the zones.
  kept-HasIds : HasIds dt zones g → Answers name g id ids → HasIds dt zones ids
  kept-HasIds old answers n z h = elim (old n z h) [
    | inl any ↦ inl any
    | inr (i, e, r) ↦ inr (i, answers.2 n i e, r)
  ]

  new-HasIds :
      (a : ℕ)
      → HasIds dt zones g
      → Answers name g id ids
      → HasIds dt ((name, create_zone dt a name id) ∷ zones) ids
  unfolding get
  new-HasIds a old answers n z h = elim (Bool-cases (str_eq name n)) [
    | inl here ↦
        let e : some (create_zone dt a name id) ≡ some z = rw here at h in
        let same : create_zone dt a name id ≡ z = cc in
        inr (
          id,
          ap (λ s. get s ids.id_table) (sym ((eq_iff name n).0 here)) ∙ answers.1,
          ap (λ (y : Zone). y.value.range) (sym same),
        )
    | inr other ↦ kept-HasIds old answers n z (rw other at h)
  ]

src-IsZoned :
    (name : String) (z : Zone) (nw nw' : Network)
    → IsZoned nw
    → Step src_zone src_zone_slot name z nw nw'
    → IsZoned nw'
src-IsZoned name z nw nw' w (inl (there, same)) = subst IsZoned same w
src-IsZoned name z nw nw' w (inr (id, ids, e, made, same)) =
    let answers = get_id-Answers name nw.zone_ids id ids w.ids e in
    subst IsZoned same (record {
      ids = answers.0;
      sources =
          new-HasIds src_zone nw.src_zones name id nw.zone_ids ids nw.next_address w.sources
            answers;
      destinations =
          kept-HasIds dst_zone nw.dst_zones name id nw.zone_ids ids w.destinations answers;
    })

dst-IsZoned :
    (name : String) (z : Zone) (nw nw' : Network)
    → IsZoned nw
    → Step dst_zone dst_zone_slot name z nw nw'
    → IsZoned nw'
dst-IsZoned name z nw nw' w (inl (there, same)) = subst IsZoned same w
dst-IsZoned name z nw nw' w (inr (id, ids, e, made, same)) =
    let answers = get_id-Answers name nw.zone_ids id ids w.ids e in
    subst IsZoned same (record {
      ids = answers.0;
      sources = kept-HasIds src_zone nw.src_zones name id nw.zone_ids ids w.sources answers;
      destinations =
          new-HasIds dst_zone nw.dst_zones name id nw.zone_ids ids nw.next_address w.destinations
            answers;
    })

-- The zone answers to its name.
src_answers :
    (name : String) (z : Zone) (nw nw' : Network)
    → Step src_zone src_zone_slot name z nw nw'
    → get name nw'.src_zones ≡ some z
unfolding get
src_answers name z nw nw' (inl (there, same)) =
    subst (λ k. get name k.src_zones ≡ some z) same there
src_answers name z nw nw' (inr (id, ids, e, made, same)) =
    subst (λ k. get name k.src_zones ≡ some z) same (rw ((eq_iff name name).1 refl) (ap some made))

dst_answers :
    (name : String) (z : Zone) (nw nw' : Network)
    → Step dst_zone dst_zone_slot name z nw nw'
    → (get name nw'.dst_zones ≡ some z) × (nw'.src_zones ≡ nw.src_zones)
unfolding get
dst_answers name z nw nw' (inl (there, same)) =
    subst (λ k. (get name k.dst_zones ≡ some z) × (k.src_zones ≡ nw.src_zones)) same (there, refl)
dst_answers name z nw nw' (inr (id, ids, e, made, same)) =
    subst (λ k. (get name k.dst_zones ≡ some z) × (k.src_zones ≡ nw.src_zones)) same
      (rw ((eq_iff name name).1 refl) (ap some made), refl)

-- The identifiers of two names are equal just when the names are.
same_range :
    (nw : Network) (n m : String) (z y : Zone)
    → IsZoned nw
    → n ≢ "any"
    → m ≢ "any"
    → get n nw.src_zones ≡ some z
    → get m nw.dst_zones ≡ some y
    → (z.value.range ≡ y.value.range) ↔ (n ≡ m)
same_range nw n m z y w p q h k = elim (w.sources n z h) [
  | inl any ↦ absurd (p any)
  | inr (i, e, r) ↦ elim (w.destinations m y k) [
    | inl any ↦ absurd (q any)
    | inr (j, f, s) ↦ (
      λ c.
          let alike : create_singleton src_zone i ≡ create_singleton dst_zone j = sym r ∙ c ∙ s in
          let ids : i ≡ j = ap (λ (x : Range). x.lbound) alike in
          w.ids.apart n m i e (f ∙ ap some (sym ids)),
      λ c.
          let ids : some i ≡ some j = sym e ∙ ap (λ x. get x nw.zone_ids.id_table) c ∙ f in
          let same : i ≡ j = cc in r ∙ ap (create_singleton src_zone) same ∙ sym s,
    )
  ]
]

-- In a network where the zones have the identifiers of their names, a source zone and a destination
-- zone that are registered one after the other keep that so. When neither is named any, they have the
-- same range of identifiers just when they have the same name.
pub register_zones-IsZoned :
    (n m : String) (z y : Zone) (nw nw' nw'' : Network)
    → IsZoned nw
    → register_src_zone n nw ≡ ok (z, nw')
    → register_dst_zone m nw' ≡ ok (y, nw'')
    → n ≢ "any"
    → m ≢ "any"
    → IsZoned nw'' × ((z.value.range ≡ y.value.range) ↔ (n ≡ m))
register_zones-IsZoned n m z y nw nw' nw'' w h k p q =
    let first = src-Step n z nw nw' h in
    let second = dst-Step m y nw' nw'' k in
    let zoned = dst-IsZoned m y nw' nw'' (src-IsZoned n z nw nw' w first) second in
    let (there, kept) = dst_answers m y nw' nw'' second in
    (
      zoned,
      same_range nw'' n m z y zoned p q (ap (get n) kept ∙ src_answers n z nw nw' first) there,
    )
