-- ===== src/Samples.antt =====
-- Rules over the sample packets of Bdd/TruthTable, for the tests.
use rules_analyzer.Base.{ℕ, false, [], ◌∷◌}
use rules_analyzer.Group.{Group, group, item, nil, plain}
use rules_analyzer.Zone.{src_any_zone_group, dst_any_zone_group}
use rules_analyzer.Address.{any_address_group, ip4_model, source, destination}
use rules_analyzer.Service.{ProtocolType, tcp, ServiceGroup, new_service, any_service_group}
use rules_analyzer.Application.{any_application_group}
use rules_analyzer.User.{any_user_group, any_url_group}
use rules_analyzer.Predicate.{Predicate}
use rules_analyzer.Mnode.{is_subset, is_none, is_any, is_disjoint, overlaps, negate_if}
use rules_analyzer.Range.{is_singleton, range_eq}
use rules_analyzer.Mvalue as Value
use rules_analyzer.Group as Groups
use rules_analyzer.Service.{service_bdd}
use rules_analyzer.Application.{application_bdd}
use rules_analyzer.Predicate.{src_addresses_bdd, dst_addresses_bdd, services_bdd, conjunction}
use rules_analyzer.Predicate as Predicates
use rules_analyzer.State.{update}
use rules_analyzer.Rule.{Rule, RuleAction, allow, deny, enabled, rule_bdd, is_deny_all}
use rules_analyzer.RuleList.{RuleList, filter_before}
use rules_analyzer.Analyzer.{
  lookup, insert, find_other_is_subset, find_overlaping, analyze_fully_masked_rule,
  look_for_correlation, look_for_redundancy, analyze_partially_masked_rule, check_rule, check_rules,
}

-- A predicate that asks for services only.
abbrev pub for_services : ServiceGroup → Predicate
for_services services = record {
  is_any_predicate = false;
  src_zones = src_any_zone_group 100 101;
  dst_zones = dst_any_zone_group 102 103;
  src_addresses = any_address_group source ip4_model 104 105 106;
  negate_src_addresses = false;
  dst_addresses = any_address_group destination ip4_model 107 108 109;
  negate_dst_addresses = false;
  services = services;
  applications = any_application_group 110 111 112 113;
  users = any_user_group 114 115;
  urls = any_url_group 116 117;
}

abbrev pub sample_rule : ℕ → RuleAction → ServiceGroup → Rule
sample_rule id action services = record {
  address = id;
  name = "";
  id = id;
  status = enabled;
  action = action;
  predicate = for_services services;
}

abbrev pub one_service : ProtocolType → ℕ → ℕ → ServiceGroup
one_service pt lower upper = group plain 120 "svc" (item (new_service pt 121 "svc" lower upper) nil)

abbrev pub allow_ssh : Rule
allow_ssh = sample_rule 1 allow (one_service tcp 22 22)

abbrev pub deny_low_ports : Rule
deny_low_ports = sample_rule 2 deny (one_service tcp 0 1023)

abbrev pub allow_http : Rule
allow_http = sample_rule 3 allow (one_service tcp 80 80)

abbrev pub deny_all : Rule
deny_all = sample_rule 4 deny (any_service_group 122 123)

-- The third rule is shadowed by the second.
abbrev pub sample_acl : RuleList
sample_acl = allow_ssh ∷ deny_low_ports ∷ allow_http ∷ deny_all ∷ []

-- The functions that a test runs through to the diagram of a rule.
unfoldable pub diagrams : ℕ
unfolding rule_bdd Predicates.make_bdd conjunction src_addresses_bdd dst_addresses_bdd services_bdd
    Groups.make_bdd negate_if service_bdd application_bdd Value.make_bdd Value.covers_domain
    is_singleton range_eq
diagrams = 0

-- And those of the analyzer.
unfoldable pub analysis : ℕ
unfolding diagrams is_subset is_none is_any is_disjoint overlaps update is_deny_all filter_before
    lookup insert find_other_is_subset find_overlaping analyze_fully_masked_rule
    look_for_correlation look_for_redundancy analyze_partially_masked_rule check_rule check_rules
analysis = 0
