-- ===== src/Firewall/Added.antt =====
-- A firewall whose rules are added one by one, as the loader of the rules does.
use mathlib.Core.Path.{subst}
use rules_analyzer.Base.{ℕ, ◌≡◌, refl, sym, ap, ◌∙◌, List, [], ◌∷◌, ◌++◌, String}
use mathlib.Core.List.{append_assoc, append-nil}
use rules_analyzer.Rule.{Rule, RuleStatus, enabled, disabled}
use rules_analyzer.RuleList.{filter_status}
use rules_analyzer.Firewall.{Firewall, new_firewall, add_rule, acl, get_rule}
use rules_analyzer.Firewall.Access.{
  IsWellFormed, addresses, last_with, new_firewall-IsWellFormed, add_rule-IsWellFormed,
}
use rules_analyzer.Firewall.Status.{IsUnique, acl-IsWellFormed}

abbrev pub added : List Rule → Firewall → Firewall
added [] fw = fw
added (r ∷ rules) fw = added rules (add_rule r fw)

-- The rules whose status is enabled.
abbrev keep : RuleStatus → Rule → List Rule → List Rule
keep enabled r rules = r ∷ rules
keep disabled r rules = rules

abbrev pub enabled_rules : List Rule → List Rule
enabled_rules [] = []
enabled_rules (r ∷ rules) = keep r.status r (enabled_rules rules)

keep-filter_status :
    (status : RuleStatus) (r : Rule) (rules : List Rule)
    → r.status ≡ status
    → filter_status enabled (r ∷ rules) ≡ keep status r (filter_status enabled rules)
keep-filter_status enabled r rules e = rw e refl
keep-filter_status disabled r rules e = rw e refl

filter_status-enabled : (rules : List Rule) → filter_status enabled rules ≡ enabled_rules rules
filter_status-enabled [] = refl
filter_status-enabled (r ∷ rules) =
    keep-filter_status r.status r rules refl ∙ ap (keep r.status r) (filter_status-enabled rules)

added-IsWellFormed :
    (rules : List Rule) (fw : Firewall) → IsWellFormed fw → IsWellFormed (added rules fw)
added-IsWellFormed [] fw w = w
added-IsWellFormed (r ∷ rules) fw w =
    added-IsWellFormed rules (add_rule r fw) (add_rule-IsWellFormed r fw w)

added-rules : (rules : List Rule) (fw : Firewall) → (added rules fw).rules ≡ fw.rules ++ rules
unfolding add_rule
added-rules [] fw = sym (append-nil fw.rules)
added-rules (r ∷ rules) fw =
    added-rules rules (add_rule r fw) ∙ append_assoc fw.rules (r ∷ []) rules

added_to_new : (name : String) (rules : List Rule) → (added rules (new_firewall name)).rules ≡ rules
unfolding new_firewall
added_to_new name rules = added-rules rules (new_firewall name)

-- When rules that have distinct addresses are added one by one to a new firewall, its access list
-- is, in the same order, those of them whose status is enabled; and the search for an id answers
-- with the pointer to the last of them that has the id, or with the null pointer when none has it.
pub added-acl :
    (name : String) (rules : List Rule)
    → IsUnique (addresses rules)
    → (acl (added rules (new_firewall name)) ≡ enabled_rules rules)
      × ((id : ℕ) → get_rule id (added rules (new_firewall name)) ≡ last_with id rules)
added-acl name rules u =
    let fw = added rules (new_firewall name) in
    let all : fw.rules ≡ rules = added_to_new name rules in
    let well : IsWellFormed fw =
      added-IsWellFormed rules (new_firewall name) (new_firewall-IsWellFormed name) in
    let apart : IsUnique (addresses fw.rules) = subst (λ rs. IsUnique (addresses rs)) (sym all) u in
    (
      acl-IsWellFormed fw well apart ∙ ap (filter_status enabled) all ∙ filter_status-enabled rules,
      λ id. well.mapped id ∙ ap (last_with id) all,
    )
