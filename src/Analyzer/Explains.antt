-- ===== src/Analyzer/Explains.antt =====
-- What a report of the analysis has to say of the packets, for src/model/analyzer.cpp and
-- src/model/anomaly.cpp.
use rules_analyzer.Base.{◌<◌, ◌≡◌, Bool, true, not, Option, none, some, length}
use rules_analyzer.Bdd.{Buddy}
use rules_analyzer.Rule.{Rule, RuleAction, opposite, rule_bdd}
use rules_analyzer.RuleList.{RuleList}
use rules_analyzer.State.{State, processed}
use rules_analyzer.State.FirstMatch.{matches, matched, decides}
use rules_analyzer.Anomaly.{
  RuleAnomalyDetails, shadowed, full_redundant, partial_redundant, correlated,
  redundant_or_correlated, generalized,
}
use rules_analyzer.Analyzer.Search.{overlapping, inside}

-- The state tells apart what the rules in front decide.
pub record Tracks (L : Buddy) (s : State L) (before : RuleList) : Type 0 where
  pub decided : (a : RuleAction) (p : L.Packet) → L.holds (processed L s a) p ≡ decides L a before p
  pub left : (p : L.Packet) → L.holds s.remaining p ≡ not (matched L before p)

-- All packets of a rule, those that have the property `P`.
abbrev pub Every : (L : Buddy) → Rule → (L.Packet → Bool) → Type 0
Every L r f = (p : L.Packet) → matches L r p ≡ true → f p ≡ true

-- What each report says of a rule `r` behind the rules `before`. No report: no packet of the rule
-- is decided against it.
abbrev pub Explains : (L : Buddy) → RuleList → Rule → Option RuleAnomalyDetails → Type 0
Explains L before r none = Every L r (λ p. not (decides L (opposite r.action) before p))
Explains L before r (some (shadowed rs)) =
    (rs ≡ overlapping L (rule_bdd L r) (opposite r.action) before)
    × Every L r (decides L (opposite r.action) before)
Explains L before r (some (full_redundant rs)) =
    (rs ≡ overlapping L (rule_bdd L r) r.action before) × Every L r (decides L r.action before)
Explains L before r (some (redundant_or_correlated rs cs)) =
    (rs ≡ overlapping L (rule_bdd L r) r.action before)
    × (cs ≡ overlapping L (rule_bdd L r) (opposite r.action) before)
    × Every L r (matched L before)
    × ¬ Every L r (decides L r.action before)
    × ¬ Every L r (decides L (opposite r.action) before)
Explains L before r (some (generalized rs)) =
    (rs ≡ inside L (rule_bdd L r) (opposite r.action) before)
    × (0 < length rs)
    × ¬ Every L r (matched L before)
    × ¬ Every L r (λ p. not (matched L before p))
Explains L before r (some (partial_redundant rs)) =
    (rs ≡ inside L (rule_bdd L r) r.action before)
    × (0 < length rs)
    × ¬ Every L r (matched L before)
    × ¬ Every L r (λ p. not (matched L before p))
Explains L before r (some (correlated rs)) =
    (rs ≡ overlapping L (rule_bdd L r) (opposite r.action) before)
    × (0 < length rs)
    × ¬ Every L r (matched L before)
    × ¬ Every L r (λ p. not (matched L before p))
