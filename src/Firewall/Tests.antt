-- ===== src/Firewall/Tests.antt =====
-- A firewall of the sample rules, and a rule of it that is disabled.
use rules_analyzer.Base.{ℕ, ◌≡◌, refl, some, [], ◌∷◌}
use rules_analyzer.Rule.{disabled}
use rules_analyzer.Firewall.{Firewall, new_firewall, acl, add_rule, get_rule, change_status}
use rules_analyzer.Firewall.Access.{
  IsWellFormed, addresses, last_with, new_firewall-IsWellFormed, add_rule-IsWellFormed,
}
use rules_analyzer.Firewall.Status.{IsUnique, without, disable-acl}
use rules_analyzer.Firewall.Added.{added, enabled_rules, added-acl}
use rules_analyzer.Samples.{allow_ssh, deny_low_ports}

unfoldable sample_firewall : Firewall
unfolding new_firewall add_rule
sample_firewall = add_rule deny_low_ports (add_rule allow_ssh (new_firewall "fw"))

sample-IsWellFormed : IsWellFormed sample_firewall
unfolding sample_firewall
sample-IsWellFormed =
    add_rule-IsWellFormed deny_low_ports _
      (add_rule-IsWellFormed allow_ssh _ (new_firewall-IsWellFormed "fw"))

sample-IsUnique : IsUnique (addresses sample_firewall.rules)
unfolding sample_firewall
sample-IsUnique = (refl, (refl, tt))

add_rule-IsWellFormed_example : IsWellFormed (add_rule deny_low_ports (new_firewall "fw"))
add_rule-IsWellFormed_example =
    add_rule-IsWellFormed deny_low_ports (new_firewall "fw") (new_firewall-IsWellFormed "fw")

added-acl_example :
    (acl (added (allow_ssh ∷ deny_low_ports ∷ []) (new_firewall "fw"))
      ≡ enabled_rules (allow_ssh ∷ deny_low_ports ∷ []))
    × ((id : ℕ)
        → get_rule id (added (allow_ssh ∷ deny_low_ports ∷ []) (new_firewall "fw"))
          ≡ last_with id (allow_ssh ∷ deny_low_ports ∷ []))
added-acl_example = added-acl "fw" (allow_ssh ∷ deny_low_ports ∷ []) (refl, (refl, tt))

disable-acl_example :
    (after : Firewall) × (change_status disabled 1 sample_firewall ≡ some after)
    × IsWellFormed after
    × (acl after ≡ without 1 (acl sample_firewall))
unfolding sample_firewall
disable-acl_example =
    disable-acl 1 sample_firewall sample-IsWellFormed (refl, (refl, tt)) (refl, (refl, tt)) refl
