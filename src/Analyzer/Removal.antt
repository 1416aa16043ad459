-- ===== src/Analyzer/Removal.antt =====
-- What the reports license: a masked rule can be removed, and a rule without a report can be moved
-- to the front, and the firewall decides every packet as before.
use mathlib.Core.List.{append_assoc}
use mathlib.Core.Path.{subst}
use rules_analyzer.Base.{
  ℕ, ◌≡◌, refl, sym, ap, ◌∙◌, Bool, true, false, List, [], ◌∷◌, ◌++◌, none, some, arith,
}
use rules_analyzer.Bdd.{Buddy}
use rules_analyzer.Rule.{Rule, opposite}
use rules_analyzer.RuleList.{RuleList}
use rules_analyzer.State.FirstMatch.{
  matched, decide, decides, decide-append, decides_iff, matched-decides,
}
use rules_analyzer.Anomaly.{
  RuleAnomalyDetails, shadowed, full_redundant, redundant_or_correlated, RuleAnomaly, RuleAnomalies,
}
use rules_analyzer.Address.{IpAddressModel}
use rules_analyzer.State.{State}
use rules_analyzer.Rule.{rule_bdd}
use rules_analyzer.Analyzer.{Bddcache, lookup, check_rule, check_anomaly}
use rules_analyzer.Base.{Outcome, ok}
use rules_analyzer.Analyzer.Search.{Has_address, Cached}
use rules_analyzer.Analyzer.Verdict.{check_rule-Explains}
use rules_analyzer.Analyzer.Explains.{Every, Explains, Tracks}
use rules_analyzer.Analyzer.Run.{Fresh, Reports, done, skip, quiet, report, check_anomaly_explains}

-- The reports that `analyze_fully_masked_rule` makes.
abbrev pub is_mask : RuleAnomalyDetails → Bool
is_mask (shadowed rs) = true
is_mask (full_redundant rs) = true
is_mask (redundant_or_correlated rs cs) = true
is_mask d = false

ok-injective {ℓ} : {E : Type 0} {A : Type ℓ} {a b : A} → ◌≡◌ {A = Outcome E A} (ok a) (ok b) → a ≡ b
ok-injective e = cc

module _ (L : Buddy) (before after : RuleList) (r : Rule) where
  mask_matched :
      (d : RuleAnomalyDetails)
      → is_mask d ≡ true
      → Explains L before r (some d)
      → Every L r (matched L before)
  mask_matched (shadowed rs) h x p m = ground (arith, x.1 p m, matched-decides L r.action before p)
  mask_matched (full_redundant rs) h x p m =
      ground (arith, x.1 p m, matched-decides L r.action before p)
  mask_matched (redundant_or_correlated rs cs) h x p m = x.2 p m
  mask_matched _ h x p m = cc

  remove_matched :
      Every L r (matched L before)
      → (p : L.Packet) → decide L (before ++ r ∷ after) p ≡ decide L (before ++ after) p
  remove_matched every p =
      decide-append L before (r ∷ after) p ∙ ground (arith, every p, decide-append L before after p)

  -- A packet of the rule is decided alike in front of it, or not at all.
  decided_alike :
      (p : L.Packet)
      → decides L (opposite r.action) before p ≡ false
      → matched L before p ≡ true
      → decide L before p ≡ some r.action
  decided_alike p h m =
      (decides_iff L r.action before p).0 (ground (arith, matched-decides L r.action before p))

  move_front :
      Explains L before r none
      → (p : L.Packet) → decide L (r ∷ before ++ after) p ≡ decide L (before ++ r ∷ after) p
  move_front every p = ground (
    arith,
    every p,
    decided_alike p,
    decide-append L before (r ∷ after) p,
    decide-append L before after p,
  )

  -- When `check_rule` returns no anomaly for a rule, with the rules before it in the cache and in
  -- the state, the rule can be moved in front of them: the firewall decides every packet as before.
  pub check_rule-none_movable :
      (s : State L) (cache : Bddcache L)
      → Has_address r.address before ≡ false
      → Cached L cache before
      → lookup L r.id cache ≡ some (rule_bdd L r)
      → Tracks L s before
      → check_rule L (before ++ r ∷ after) r s cache ≡ ok none
      → (p : L.Packet) → decide L (r ∷ before ++ after) p ≡ decide L (before ++ r ∷ after) p
  check_rule-none_movable s cache fresh cached own tracks e =
      let (d, q, x) = check_rule-Explains L before after r s cache fresh cached tracks own in
      move_front (subst (Explains L before r) (ok-injective (sym q ∙ e)) x)

-- Of each report that a rule is masked, the rule can be taken out of the list.
abbrev pub Removable : (L : Buddy) → RuleList → Rule → Type 0
Removable L acl r =
    (before : RuleList) × (after : RuleList) × (acl ≡ before ++ r ∷ after)
    × ((p : L.Packet) → decide L (before ++ after) p ≡ decide L acl p)

abbrev pub AllRemovable : (L : Buddy) → RuleList → List RuleAnomaly → Type 0
AllRemovable L acl [] = Unit
AllRemovable L acl (a ∷ anomalies) =
    (is_mask a.details ≡ true → Removable L acl a.rule) × AllRemovable L acl anomalies

module _ (L : Buddy) (acl : RuleList) where
  Reports-removable :
      (before rules : RuleList) (anomalies : List RuleAnomaly)
      → Reports L acl before rules anomalies
      → before ++ rules ≡ acl
      → AllRemovable L acl anomalies
  Reports-removable before rules anomalies done e = tt
  Reports-removable before rules anomalies (skip {rules = rest} r d l x) e =
      Reports-removable (before ++ r ∷ []) rest anomalies x (append_assoc before (r ∷ []) rest ∙ e)
  Reports-removable before rules anomalies (quiet {rules = rest} r q x) e =
      Reports-removable (before ++ r ∷ []) rest anomalies x (append_assoc before (r ∷ []) rest ∙ e)
  Reports-removable before rules anomalies (report {rules = rest} {anomalies = news} r d q x) e = (
    (λ m. (
      before,
      rest,
      sym e,
      λ p.
          sym (remove_matched L before rest r (mask_matched L before rest r d m q) p)
          ∙ ap (λ l. decide L l p) e,
    )),
    Reports-removable (before ++ r ∷ []) rest news x (append_assoc before (r ∷ []) rest ∙ e),
  )

  -- Each rule that `check_anomaly` reports as shadowed, fully redundant, or redundant or
  -- correlated can be removed: the firewall decides every packet as before.
  pub check_anomaly_removable :
      (ip_model : IpAddressModel) (new : ℕ) (interrupts : ℕ → Bool) (x : RuleAnomalies)
      → ((k : ℕ) → interrupts k ≡ false)
      → Fresh [] acl
      → check_anomaly L ip_model new interrupts acl ≡ ok x
      → AllRemovable L acl x.anomalies
  check_anomaly_removable ip_model new interrupts x never f e =
      let (y, q, reports, m) = check_anomaly_explains L ip_model new interrupts acl never f in
      subst (λ z. AllRemovable L acl z.anomalies) (ok-injective (sym q ∙ e))
        (Reports-removable [] acl y.anomalies reports refl)
