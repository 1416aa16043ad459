-- ===== src/FirewallFactory/Rules/Disabled.antt =====
-- The number of disabled rules that load_rules (src/ostore/firewallfactory.cpp) reports.
use rules_analyzer.Base.{ℕ, ◌+◌, ◌-◌, ◌%◌, ◌^◌, ◌≡◌, Bool, if◌then◌else◌, length, Option}
use rules_analyzer.Bdd.{Buddy}
use rules_analyzer.Format.{Format}
use rules_analyzer.IpConvertor.{Inet}
use rules_analyzer.Rule.{Rule, disabled}
use rules_analyzer.RuleList.{filter_status}
use rules_analyzer.Firewall.{add_rule as push_rule}
use rules_analyzer.Firewall.Access.{addresses}
use rules_analyzer.Firewall.Status.{IsUnique}
use rules_analyzer.ObjectStore.{AddressObject, ObjectStore}
use rules_analyzer.Network.{Network}
use rules_analyzer.FirewallFactory.Status.{Loading}

-- Disabled rules, without the rule that denies all in the end.
abbrev pub all_disabled : Loading → ℕ
all_disabled s = length (filter_status disabled s.firewall.rules)

module _ (L : Buddy) (F : Format) (I : Inet) (fqdn_resolve : AddressObject → Option AddressObject)
    (store : ObjectStore) where
  abbrev Counted : Bool → Loading → Type 0
  Counted add_implicit_deny_all s =
      IsUnique (addresses s.firewall.rules)
      → s.status.disabled_count
        ≡ (all_disabled s + 2 ^ 64 - (if add_implicit_deny_all then 1 else 0)) % 2 ^ 64
