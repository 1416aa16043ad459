-- ===== src/Comparator.antt =====
-- src/model/comparator.h and src/model/comparator.cpp: what two lists of rules allow and deny.
pub mod Laws
mod Tests
use rules_analyzer.Base.{if◌then◌else◌, ◌∷◌, []}
use rules_analyzer.Bdd.{Buddy}
use rules_analyzer.Mnode.{MnodeRelationship, compare}
use rules_analyzer.Rule.{Rule, RuleAction, allow, deny, enabled, status_eq, rule_bdd}
use rules_analyzer.RuleList.{RuleList}

-- The pair of local variables of `compute_bdd`.
pub record Verdicts (L : Buddy) : Type 0 where
  pub allowed : L.Bdd
  pub denied : L.Bdd

-- `PolicylistRelationShip`: the relations of what is allowed and of what is denied.
pub record PolicylistRelationship : Type 0 where
  pub on_allowed : MnodeRelationship
  pub on_denied : MnodeRelationship

module _ (L : Buddy) where
  open L use {bddfalse, bdd_or, bdd_diff}

  abbrev add_verdict : RuleAction → L.Bdd → Verdicts L → Verdicts L
  add_verdict allow b v = record v { allowed = bdd_or v.allowed (bdd_diff b v.denied) }
  add_verdict deny b v = record v { denied = bdd_or v.denied (bdd_diff b v.allowed) }

  -- The loop of `compute_bdd`, from the values of its two variables.
  unfoldable pub compute_from : Verdicts L → RuleList → Verdicts L
  compute_from v [] = v
  compute_from v (r ∷ rs) =
      compute_from (if status_eq r.status enabled then add_verdict r.action (rule_bdd L r) v else v)
        rs

  unfoldable pub compute_bdd : RuleList → Verdicts L
  unfolding compute_from
  compute_bdd rules = compute_from (record { allowed = bddfalse; denied = bddfalse }) rules

  unfoldable pub compare_lists : RuleList → RuleList → PolicylistRelationship
  unfolding compute_bdd
  compare_lists xs ys =
      let v = compute_bdd xs in
      let w = compute_bdd ys in
      record { on_allowed = compare L v.allowed w.allowed; on_denied = compare L v.denied w.denied }
