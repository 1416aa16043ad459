-- ===== src/Analyzer/Verdict.antt =====
-- What a report of `check_rule` says of the packets, in terms of the first rule that matches.
use mathlib.Core.Bool.{true≢false}
use rules_analyzer.Base.{
  ◌<◌, ◌≡◌, refl, sym, ◌∙◌, ◌↔◌, Bool, true, false, not, ◌||◌, [], ◌∷◌, ◌++◌, Option, none, some,
  arith, Bool-cases, inl, inr, length, ltb,
}
use rules_analyzer.Bdd.{Buddy}
use rules_analyzer.Mnode.{is_subset, is_disjoint, is_none, overlaps}
use rules_analyzer.Mnode.Laws.{is_subset_iff, is_disjoint_iff, is_none_iff}
use rules_analyzer.Rule.{Rule, RuleAction, opposite, rule_bdd}
use rules_analyzer.RuleList.{RuleList}
use rules_analyzer.State.{State, processed}
use rules_analyzer.State.FirstMatch.{matches, matched, decides, matched-decides, decides_once}
use rules_analyzer.Anomaly.{
  RuleAnomalyDetails, shadowed, full_redundant, partial_redundant, correlated,
  redundant_or_correlated, generalized,
}
use rules_analyzer.Analyzer.{
  Result, Bddcache, lookup, analyze_fully_masked_rule, analyze_partially_masked_rule,
  look_for_correlation, look_for_redundancy, check_rule,
}
use rules_analyzer.Base.{ok}
use rules_analyzer.Analyzer.Search.{
  Has_address, Cached, overlapping, inside, find_overlaping_lem, find_other_is_subset_lem,
}
use rules_analyzer.Analyzer.Explains.{Tracks, Every, Explains}

module _ (L : Buddy) (before after : RuleList) (r : Rule) (s : State L) (cache : Bddcache L)
    (fresh : Has_address r.address before ≡ false) (cached : Cached L cache before)
    (tracks : Tracks L s before) where
  open L use {Packet, holds}

  subset_left :
      (is_subset L (rule_bdd L r) s.remaining ≡ true) ↔ Every L r (λ p. not (matched L before p))
  subset_left = (
    (λ e p m. sym (tracks.left p) ∙ (is_subset_iff L _ _).0 e p m),
    (λ f. (is_subset_iff L _ _).1 λ p m. tracks.left p ∙ f p m),
  )

  subset_decided :
      (a : RuleAction)
      → (is_subset L (rule_bdd L r) (processed L s a) ≡ true) ↔ Every L r (decides L a before)
  subset_decided a = (
    (λ e p m. sym (tracks.decided a p) ∙ (is_subset_iff L _ _).0 e p m),
    (λ f. (is_subset_iff L _ _).1 λ p m. tracks.decided a p ∙ f p m),
  )

  disjoint_decided :
      (a : RuleAction)
      → (is_disjoint L (rule_bdd L r) (processed L s a) ≡ true)
        ↔ Every L r (λ p. not (decides L a before p))
  disjoint_decided a = (
    (λ e p m. ground (arith, (is_disjoint_iff L _ _).0 e p m, tracks.decided a p)),
    (λ f. (is_disjoint_iff L _ _).1 λ p m k. ground (arith, f p m, tracks.decided a p)),
  )

  masked :
      ((is_none L s.remaining || is_disjoint L (rule_bdd L r) s.remaining) ≡ true)
      ↔ Every L r (matched L before)
  masked = (
    (λ e p m. elim (Bool-cases (is_none L s.remaining)) [
      | inl n ↦ ground (arith, (is_none_iff L s.remaining).0 n p, tracks.left p)
      | inr n ↦ ground (
        arith,
        (is_disjoint_iff L (rule_bdd L r) s.remaining).0 (ground arith) p m,
        tracks.left p,
      )
    ]),
    (λ f.
        let d : is_disjoint L (rule_bdd L r) s.remaining ≡ true =
          (is_disjoint_iff L _ _).1 λ p m k. ground (arith, f p m, tracks.left p) in
        ground arith),
  )

  refuse {ℓ} : {P : Type ℓ} {c : Bool} → ((c ≡ true) ↔ P) → c ≡ false → ¬ P
  refuse e h q = true≢false (sym (e.1 q) ∙ h)

  abbrev Reports : Result (Option RuleAnomalyDetails) → Type 0
  Reports x = (d : Option RuleAnomalyDetails) × (x ≡ ok d) × Explains L before r d

  module _ (all : Every L r (matched L before)) where
    same_only :
        is_disjoint L (rule_bdd L r) (processed L s (opposite r.action)) ≡ true
        → Every L r (decides L r.action before)
    same_only f p m = ground (
      arith,
      (disjoint_decided (opposite r.action)).0 f p m,
      all p m,
      matched-decides L r.action before p,
    )

    not_same_only :
        is_disjoint L (rule_bdd L r) (processed L s (opposite r.action)) ≡ false
        → ¬ Every L r (decides L r.action before)
    not_same_only f every =
        refuse (disjoint_decided (opposite r.action)) f
          λ p m. ground (arith, every p m, decides_once L r.action before p)

    fully_masked :
        (d : RuleAnomalyDetails) × (analyze_fully_masked_rule L
            (before ++ r ∷ after)
            r
            (rule_bdd L r)
            s
            cache
          ≡ ok d)
        × Explains L before r (some d)
    unfolding analyze_fully_masked_rule
    fully_masked =
        let b = rule_bdd L r in
        let against = opposite r.action in
        let rs = find_overlaping_lem L before after r b r.action cache fresh cached in
        let cs = find_overlaping_lem L before after r b against cache fresh cached in
        elim (Bool-cases (is_subset L b (processed L s against))) [
          | inl e ↦ (
            shadowed (overlapping L b against before),
            rw (e, cs),
            (refl, (subset_decided against).0 e),
          )
          | inr e ↦ elim (Bool-cases (is_disjoint L b (processed L s against))) [
            | inl f ↦ (
              full_redundant (overlapping L b r.action before),
              rw (e, f, rs),
              (refl, same_only f),
            )
            | inr f ↦ (
              redundant_or_correlated (overlapping L b r.action before)
                  (overlapping L b against before),
              rw (e, f, cs, rs),
              (refl, refl, all, not_same_only f, refuse (subset_decided against) e),
            )
          ]
        ]

  meets :
      (o : Rule) (p : Packet)
      → matches L r p ≡ true
      → matches L o p ≡ true
      → overlaps L (rule_bdd L r) (rule_bdd L o) ≡ true
  unfolding overlaps
  meets o p m k = elim (Bool-cases (is_disjoint L (rule_bdd L r) (rule_bdd L o))) [
    | inl e ↦ absurd ((is_disjoint_iff L _ _).0 e p m k)
    | inr e ↦ ground arith
  ]

  -- A packet of the rule that is decided by an action shows a rule of that action to report.
  decided_overlapping :
      (a : RuleAction) (os : RuleList) (p : Packet)
      → matches L r p ≡ true
      → decides L a os p ≡ true
      → 0 < length (overlapping L (rule_bdd L r) a os)
  decided_overlapping a [] p m h = cc
  decided_overlapping a (o ∷ os) p m h = ground (arith, meets o p, decided_overlapping a os p m)

  module _ (some_left : ¬ Every L r (matched L before))
      (some_gone : ¬ Every L r (λ p. not (matched L before p))) where
    correlation : Reports (look_for_correlation L (before ++ r ∷ after) r (rule_bdd L r) s cache)
    unfolding look_for_correlation overlaps
    correlation =
        let b = rule_bdd L r in
        let against = opposite r.action in
        let cs = find_overlaping_lem L before after r b against cache fresh cached in
        elim (Bool-cases (is_disjoint L b (processed L s against))) [
          | inl e ↦ (none, rw e, (disjoint_decided against).0 e)
          | inr e ↦ elim (Bool-cases (ltb 0 (length (overlapping L b against before)))) [
            | inl f ↦ (
              some (correlated (overlapping L b against before)),
              rw (e, cs, f),
              (refl, ground arith, some_left, some_gone),
            )
            | inr f ↦ (
              none,
              rw (e, cs, f),
              λ p m. elim (Bool-cases (decides L against before p)) [
                | inl h ↦ absurd (ground (arith, decided_overlapping against before p m h))
                | inr h ↦ rw h
              ],
            )
          ]
        ]

    redundancy : Reports (look_for_redundancy L (before ++ r ∷ after) r (rule_bdd L r) s cache)
    unfolding look_for_redundancy
    redundancy =
        let b = rule_bdd L r in
        let rs = find_other_is_subset_lem L before after r b r.action cache fresh cached in
        elim (Bool-cases (overlaps L b (processed L s r.action))) [
          | inl e ↦ elim (Bool-cases (ltb 0 (length (inside L b r.action before)))) [
            | inl f ↦ (
              some (partial_redundant (inside L b r.action before)),
              rw (e, rs, f),
              (refl, ground arith, some_left, some_gone),
            )
            | inr f ↦ let (d, q, x) = correlation in (d, rw (e, rs, f) q, x)
          ]
          | inr e ↦ let (d, q, x) = correlation in (d, rw e q, x)
        ]

    partially_masked :
        Reports (analyze_partially_masked_rule L (before ++ r ∷ after) r (rule_bdd L r) s cache)
    unfolding analyze_partially_masked_rule
    partially_masked =
        let b = rule_bdd L r in
        let against = opposite r.action in
        let rs = find_other_is_subset_lem L before after r b against cache fresh cached in
        elim (Bool-cases (ltb 0 (length (inside L b against before)))) [
          | inl f ↦ (
            some (generalized (inside L b against before)),
            rw (rs, f),
            (refl, ground arith, some_left, some_gone),
          )
          | inr f ↦ let (d, q, x) = redundancy in (d, rw (rs, f) q, x)
        ]

  -- The report on a rule explains what the rules in front leave of it. It is always made: no
  -- lookup in the cache fails.
  pub check_rule-Explains :
      lookup L r.id cache ≡ some (rule_bdd L r)
      → (d : Option RuleAnomalyDetails) × (check_rule L (before ++ r ∷ after) r s cache ≡ ok d)
        × Explains L before r d
  unfolding check_rule
  check_rule-Explains own =
      let b = rule_bdd L r in
      elim (Bool-cases (is_subset L b s.remaining)) [
        | inl e ↦ (
          none,
          rw (own, e),
          λ p m. ground (arith, subset_left.0 e p m, matched-decides L r.action before p),
        )
        | inr e ↦ elim (Bool-cases (is_none L s.remaining || is_disjoint L b s.remaining)) [
          | inl f ↦ let (d, q, x) = fully_masked (masked.0 f) in (some d, rw (own, e, f, q), x)
          | inr f ↦
              let (d, q, x) = partially_masked (refuse masked f) (refuse subset_left e) in
              (d, rw (own, e, f) q, x)
        ]
      ]
