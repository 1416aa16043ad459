-- ===== src/Analyzer/Symmetry/Turned.antt =====
-- The pairs that `check_symmetry` (src/model/analyzer.cpp) returns, against the traffic of the rules
-- the other way, packet by packet.
use rules_analyzer.Base.{ℕ, ◌==◌, ◌≡◌, Bool, if◌then◌else◌, List, [], ◌∷◌, ◌++◌, ok, err}
use rules_analyzer.Bdd.{Buddy}
use rules_analyzer.Predicate.Turned.{turned, IsConvertible}
use rules_analyzer.Predicate as Predicates
use rules_analyzer.Rule.{Rule, rule_bdd}
use rules_analyzer.RuleList.{RuleList}
use rules_analyzer.Analyzer.{Result}
use rules_analyzer.Analyzer.Symmetry.{RulePair, symmetrical_bdd}

module _ (L : Buddy) where
  open L use {Bdd, Packet, holds}

  -- Two rules have the same action, and the first matches just the packets of the second the other
  -- way.
  abbrev pub IsOtherWay : Rule → Rule → Type 0
  IsOtherWay r o =
      (r.action ≡ o.action) × ((p : Packet) → holds (rule_bdd L r) p ≡ turned L o.predicate p)

  -- The pairs of a rule with those of a list that are it the other way, in the order of the list.
  pub data Partners (r : Rule) : RuleList → List RulePair → Type 0 where
    no_partner : Partners r [] []
    partner :
        {o : Rule}
        → {os : RuleList} → {ps : List RulePair} → IsOtherWay r o
        → Partners r os ps
        → Partners r (o ∷ os) ((r, o) ∷ ps)
    unlike :
        {o : Rule}
        → {os : RuleList} → {ps : List RulePair} → ¬ IsOtherWay r o
        → Partners r os ps
        → Partners r (o ∷ os) ps

  -- The pairs of each rule with those behind it.
  pub data Pairs : RuleList → List RulePair → Type 0 where
    no_rule : Pairs [] []
    with_rule :
        {r : Rule}
        → {rs : RuleList} → {ps qs : List RulePair} → Partners r rs ps
        → Pairs rs qs
        → Pairs (r ∷ rs) (ps ++ qs)

  abbrev pub AreConvertible : RuleList → Type 0
  AreConvertible [] = Unit
  AreConvertible (r ∷ rs) = IsConvertible L r.predicate × AreConvertible rs

  module _ (places fresh : ℕ) where
    abbrev bdd_of : Result Bdd → Bdd
    bdd_of (ok b) = b
    bdd_of (err e) = L.bddfalse

    -- The diagram the other way of the rule with an id.
    abbrev other_way : RuleList → ℕ → Bdd
    other_way [] i = L.bddfalse
    other_way (r ∷ rs) i =
        if r.id == i then bdd_of (symmetrical_bdd L places fresh r) else other_way rs i
