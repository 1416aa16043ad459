-- ===== src/Firewall.antt =====
-- src/model/firewall.h and src/model/firewall.cpp: a firewall owns its rules. The list and the map
-- of the firewall hold pointers to them, so the status that is set through one is seen through the
-- other.
pub mod Access
pub mod Added
pub mod Status
mod Tests
use rules_analyzer.Base.{ℕ, ◌==◌, if◌then◌else◌, List, [], ◌∷◌, ◌++◌, Option, none, some, String}
use rules_analyzer.Rule.{Rule, RuleStatus, enabled, set_rule_status}
use rules_analyzer.RuleList.{RuleList, filter_status}

-- The rules that are owned, the list of their addresses, and the map from rule ids to addresses.
pub record Firewall : Type 0 where
  pub name : String
  pub rules : List Rule
  pub rule_list : List ℕ
  pub rule_ids : List (ℕ × ℕ)

-- A pointer to a rule, followed.
abbrev pub deref : List Rule → ℕ → Option Rule
deref [] a = none
deref (r ∷ rules) a = if r.address == a then some r else deref rules a

-- The rules that some pointers point to. A firewall holds no pointer to a rule that it does not own.
abbrev pub cons_found : Option Rule → RuleList → RuleList
cons_found none rs = rs
cons_found (some r) rs = r ∷ rs

abbrev pub deref_all : List Rule → List ℕ → RuleList
deref_all rules [] = []
deref_all rules (a ∷ pointers) = cons_found (deref rules a) (deref_all rules pointers)

abbrev pub find_id : ℕ → List (ℕ × ℕ) → Option ℕ
find_id id [] = none
find_id id ((k, a) ∷ ids) = if k == id then some a else find_id id ids

-- `_rule_ids[id] = rule`.
abbrev pub set_id : ℕ → ℕ → List (ℕ × ℕ) → List (ℕ × ℕ)
set_id id a [] = (id, a) ∷ []
set_id id a ((k, b) ∷ ids) = if k == id then (id, a) ∷ ids else (k, b) ∷ set_id id a ids

-- The constructor of a firewall without rules.
unfoldable pub new_firewall : String → Firewall
new_firewall name = record { name = name; rules = []; rule_list = []; rule_ids = [] }

unfoldable pub clear : Firewall → Firewall
clear fw = record fw { rules = []; rule_list = []; rule_ids = [] }

unfoldable pub acl : Firewall → RuleList
acl fw = filter_status enabled (deref_all fw.rules fw.rule_list)

unfoldable pub add_rule : Rule → Firewall → Firewall
add_rule rule fw = record fw {
  rules = fw.rules ++ rule ∷ [];
  rule_list = fw.rule_list ++ rule.address ∷ [];
  rule_ids = set_id rule.id rule.address fw.rule_ids;
}

-- `get_rule`: a pointer to the rule, or the null pointer.
unfoldable pub get_rule : ℕ → Firewall → Option ℕ
get_rule rule_id fw = find_id rule_id fw.rule_ids

-- `rule->set_rule_status(status)`, through a pointer.
abbrev pub set_at : RuleStatus → ℕ → List Rule → List Rule
set_at status a [] = []
set_at status a (r ∷ rules) =
    if r.address == a then set_rule_status r status ∷ rules else r ∷ set_at status a rules

-- The object of a pointer that is not null takes a status.
abbrev pub set_through : RuleStatus → Firewall → Option ℕ → Option Firewall
set_through status fw none = none
set_through status fw (some a) = some (record fw { rules = set_at status a fw.rules })

-- `do_execute` of CliFwEnableRuleCommand and CliFwDisableRuleCommand (cli/fw/clifwoption.cpp), behind
-- the reading of the id: `none` where the command reports that there is no such rule.
unfoldable pub change_status : RuleStatus → ℕ → Firewall → Option Firewall
unfolding get_rule
change_status status rule_id fw = set_through status fw (get_rule rule_id fw)
