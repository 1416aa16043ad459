-- ===== src/Rule.antt =====
-- src/model/rule.h and src/model/rule.cpp: a security rule.
use rules_analyzer.Base.{ℕ, Bool, true, false, ◌&&◌, String}
use rules_analyzer.Bdd.{Buddy}
use rules_analyzer.Mnode.{MnodeRelationship, is_any, negate_if, compare}
use rules_analyzer.Service.{is_app_services}
use rules_analyzer.Predicate.{Predicate}
use rules_analyzer.Predicate as Predicates

pub data RuleAction : Type 0 where
  deny allow : RuleAction

-- `operator!`.
abbrev pub opposite : RuleAction → RuleAction
opposite allow = deny
opposite deny = allow

abbrev pub action_eq : RuleAction → RuleAction → Bool
action_eq deny deny = true
action_eq allow allow = true
action_eq _ _ = false

pub data RuleStatus : Type 0 where
  disabled enabled : RuleStatus

abbrev pub status_eq : RuleStatus → RuleStatus → Bool
status_eq disabled disabled = true
status_eq enabled enabled = true
status_eq _ _ = false

-- A rule object is told apart by its address.
pub record Rule : Type 0 where
  pub address : ℕ
  pub name : String
  pub id : ℕ
  pub status : RuleStatus
  pub action : RuleAction
  pub predicate : Predicate

abbrev pub set_rule_status : Rule → RuleStatus → Rule
set_rule_status r status = record r { status = status }

abbrev pub is_default_app_svc : Rule → Bool
is_default_app_svc r = is_app_services r.predicate.services

module _ (L : Buddy) where
  -- The diagram of the predicate.
  unfoldable pub rule_bdd : Rule → L.Bdd
  rule_bdd r = Predicates.make_bdd L r.predicate

  unfoldable pub is_deny_all : Rule → Bool
  is_deny_all r = action_eq r.action deny && is_any L (rule_bdd r)

  unfoldable pub compare_rules : Rule → Rule → MnodeRelationship
  compare_rules r other =
      compare L (negate_if L (rule_bdd r) (action_eq r.action deny))
        (negate_if L (rule_bdd other) (action_eq other.action deny))
