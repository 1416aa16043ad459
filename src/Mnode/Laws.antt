-- ===== src/Mnode/Laws.antt =====
-- What the set operations of src/model/mnode.cpp mean for packets.
use mathlib.Core.Bool.{true≢false}
use mathlib.Core.Path.{subst}
use rules_analyzer.Base.{
  ◌≡◌, refl, sym, ◌∙◌, ◌↔◌, inl, inr, Bool, true, false, arith, Bool-cases, eq_of_iff,
}
use rules_analyzer.Bdd.{Buddy}
use rules_analyzer.Mnode.{
  MnodeRelationship, equal, subset, superset, disjoint, overlap, is_any, is_none, is_subset,
  is_disjoint, compare,
}

abbrev pub converse : MnodeRelationship → MnodeRelationship
converse equal = equal
converse subset = superset
converse superset = subset
converse disjoint = disjoint
converse overlap = overlap

module _ (L : Buddy) where
  open L use {Bdd, Packet, holds, bddtrue, bddfalse, bdd_not, bdd_and, bdd_imp, same, same_iff}

  -- Every packet of the first set lies in the second.
  abbrev pub Included : Bdd → Bdd → Type 0
  Included a b = (p : Packet) → holds a p ≡ true → holds b p ≡ true

  abbrev pub Apart : Bdd → Bdd → Type 0
  Apart a b = (p : Packet) → holds a p ≡ true → holds b p ≡ true → ⊥

  same_imp : (a b : Bdd) → (same (bdd_imp a b) bddtrue ≡ true) ↔ Included a b
  same_imp a b = (
    (λ e p h. ground (arith, (same_iff _ _).0 e p, L.holds_imp a b p, L.holds_true p)),
    (λ f.
        (same_iff _ _).1
          λ p. ground (arith, L.holds_imp a b p, L.holds_true p, f p, Bool-cases (holds a p))),
  )

  same_and : (a b : Bdd) → (same (bdd_and a b) bddfalse ≡ true) ↔ Apart a b
  same_and a b = (
    (λ e p h k. ground (arith, (same_iff _ _).0 e p, L.holds_and a b p, L.holds_false p)),
    (λ f. (same_iff _ _).1 λ p. ground (
      arith,
      L.holds_and a b p,
      L.holds_false p,
      f p,
      Bool-cases (holds a p),
      Bool-cases (holds b p),
    )),
  )

  pub is_subset_iff : (a b : Bdd) → (is_subset L a b ≡ true) ↔ Included a b
  unfolding is_subset
  is_subset_iff a b = (
    (λ e p h. elim (Bool-cases (same a b)) [
      | inl s ↦ sym ((same_iff a b).0 s p) ∙ h
      | inr s ↦ (same_imp a b).0 (ground arith) p h
    ]),
    (λ f. let e = (same_imp a b).1 f in ground arith),
  )

  pub is_disjoint_iff : (a b : Bdd) → (is_disjoint L a b ≡ true) ↔ Apart a b
  unfolding is_disjoint
  is_disjoint_iff a b = same_and a b

  pub is_none_iff : (a : Bdd) → (is_none L a ≡ true) ↔ ((p : Packet) → holds a p ≡ false)
  unfolding is_none
  is_none_iff a = (
    (λ e p. (same_iff a bddfalse).0 e p ∙ L.holds_false p),
    (λ f. (same_iff a bddfalse).1 λ p. f p ∙ sym (L.holds_false p)),
  )

  pub is_any_iff : (a : Bdd) → (is_any L a ≡ true) ↔ ((p : Packet) → holds a p ≡ true)
  unfolding is_any
  is_any_iff a = (
    (λ e p. (same_iff a bddtrue).0 e p ∙ L.holds_true p),
    (λ f. (same_iff a bddtrue).1 λ p. f p ∙ sym (L.holds_true p)),
  )

  -- What each verdict of `compare` says of the two sets. An empty set counts as a subset.
  abbrev pub Means : MnodeRelationship → Bdd → Bdd → Type 0
  Means equal a b = Included a b × Included b a
  Means subset a b = Included a b × ¬ Included b a
  Means superset a b = ¬ Included a b × Included b a
  Means disjoint a b = ¬ Included a b × ¬ Included b a × Apart a b
  Means overlap a b = ¬ Included a b × ¬ Included b a × ¬ Apart a b

  pub same_Included : (a b : Bdd) → (same a b ≡ true) ↔ (Included a b × Included b a)
  same_Included a b = (
    (λ e. (λ p h. sym ((same_iff a b).0 e p) ∙ h, λ p h. (same_iff a b).0 e p ∙ h)),
    (λ f. (same_iff a b).1 λ p. eq_of_iff (holds a p) (holds b p) (f.0 p) (f.1 p)),
  )

  not_true {ℓ} : {P : Type ℓ} {c : Bool} → ((c ≡ true) ↔ P) → c ≡ false → ¬ P
  not_true e h q = true≢false (sym (e.1 q) ∙ h)

  -- The verdict of `compare` is the relation that holds of the two sets of packets.
  pub compare-Means : (a b : Bdd) → Means (compare L a b) a b
  unfolding compare
  compare-Means a b = elim (Bool-cases (same a b)) [
    | inl e ↦ rw e ((same_Included a b).0 e)
    | inr e ↦ elim (Bool-cases (same (bdd_imp a b) bddtrue)) [
      | inl f ↦
          let h = (same_imp a b).0 f in rw (e, f) (h, λ g. not_true (same_Included a b) e (h, g))
      | inr f ↦ elim (Bool-cases (same (bdd_imp b a) bddtrue)) [
        | inl g ↦ rw (e, f, g) (not_true (same_imp a b) f, (same_imp b a).0 g)
        | inr g ↦ elim (Bool-cases (same (bdd_and a b) bddfalse)) [
          | inl h ↦
              rw (e, f, g, h)
                (not_true (same_imp a b) f, not_true (same_imp b a) g, (same_and a b).0 h)
          | inr h ↦
              rw (e, f, g, h)
                (not_true (same_imp a b) f, not_true (same_imp b a) g, not_true (same_and a b) h)
        ]
      ]
    ]
  ]

  Means-unique : (r s : MnodeRelationship) (a b : Bdd) → Means r a b → Means s a b → r ≡ s
  Means-unique equal equal a b h k = refl
  Means-unique equal subset a b h k = absurd (k.1 h.1)
  Means-unique equal superset a b h k = absurd (k.0 h.0)
  Means-unique equal disjoint a b h k = absurd (k.0 h.0)
  Means-unique equal overlap a b h k = absurd (k.0 h.0)
  Means-unique subset equal a b h k = absurd (h.1 k.1)
  Means-unique subset subset a b h k = refl
  Means-unique subset superset a b h k = absurd (k.0 h.0)
  Means-unique subset disjoint a b h k = absurd (k.0 h.0)
  Means-unique subset overlap a b h k = absurd (k.0 h.0)
  Means-unique superset equal a b h k = absurd (h.0 k.0)
  Means-unique superset subset a b h k = absurd (h.0 k.0)
  Means-unique superset superset a b h k = refl
  Means-unique superset disjoint a b h k = absurd (k.1 h.1)
  Means-unique superset overlap a b h k = absurd (k.1 h.1)
  Means-unique disjoint equal a b h k = absurd (h.0 k.0)
  Means-unique disjoint subset a b h k = absurd (h.0 k.0)
  Means-unique disjoint superset a b h k = absurd (h.1 k.1)
  Means-unique disjoint disjoint a b h k = refl
  Means-unique disjoint overlap a b h k = absurd (k.2 h.2)
  Means-unique overlap equal a b h k = absurd (h.0 k.0)
  Means-unique overlap subset a b h k = absurd (h.0 k.0)
  Means-unique overlap superset a b h k = absurd (h.1 k.1)
  Means-unique overlap disjoint a b h k = absurd (h.2 k.2)
  Means-unique overlap overlap a b h k = refl

  -- `compare` of two nodes returns a verdict exactly when the sets of packets stand in that
  -- relation: equal, strictly inside, strictly around, or neither and then apart or not.
  pub compare_iff : (r : MnodeRelationship) (a b : Bdd) → (compare L a b ≡ r) ↔ Means r a b
  compare_iff r a b = (
    (λ e. subst (λ s. Means s a b) e (compare-Means a b)),
    Means-unique (compare L a b) r a b (compare-Means a b),
  )

  converse-Means : (r : MnodeRelationship) (a b : Bdd) → Means r a b → Means (converse r) b a
  converse-Means equal a b h = (h.1, h.0)
  converse-Means subset a b h = (h.1, h.0)
  converse-Means superset a b h = (h.1, h.0)
  converse-Means disjoint a b h = (h.1, h.0, λ p j k. h.2 p k j)
  converse-Means overlap a b h = (h.1, h.0, λ f. h.2 (λ p j k. f p k j))

  -- Comparing the other way round gives the converse verdict.
  pub compare_swap : (a b : Bdd) → compare L b a ≡ converse (compare L a b)
  compare_swap a b = (compare_iff _ b a).1 (converse-Means _ a b (compare-Means a b))
