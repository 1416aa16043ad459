-- ===== src/State.antt =====
-- src/model/state.h and src/model/state.cpp: the packets that the rules so far accept, deny and
-- leave.
pub mod FirstMatch
mod Tests
use rules_analyzer.Bdd.{Buddy}
use rules_analyzer.Rule.{RuleAction, allow, deny}

pub record State (L : Buddy) : Type 0 where
  pub input : L.Bdd
  pub accepted : L.Bdd
  pub denied : L.Bdd
  pub remaining : L.Bdd

module _ (L : Buddy) where
  open L use {Bdd, bddfalse, bdd_not, bdd_and, bdd_or}

  -- The constructor, from the diagram of a predicate. A diagram made by default is false.
  abbrev pub initial : Bdd → State L
  initial predicate = record {
    input = predicate;
    accepted = bddfalse;
    denied = bddfalse;
    remaining = predicate;
  }

  abbrev record_action : State L → RuleAction → Bdd → State L
  record_action s allow predicate = record s {
    accepted = bdd_or s.accepted (bdd_and s.remaining predicate);
  }
  record_action s deny predicate = record s {
    denied = bdd_or s.denied (bdd_and s.remaining predicate);
  }

  abbrev refresh : State L → State L
  refresh s = record s { remaining = bdd_and s.input (bdd_not (bdd_or s.accepted s.denied)) }

  -- `update`. The action of a rule is one of the two, so the exception is not reached.
  unfoldable pub update : State L → RuleAction → Bdd → State L
  update s action predicate = refresh (record_action s action predicate)

  abbrev pub processed : State L → RuleAction → Bdd
  processed s allow = s.accepted
  processed s deny = s.denied
