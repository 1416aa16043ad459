-- ===== src/PacketTester/Tests.antt =====
-- The packet tester on the sample rules.
use rules_analyzer.Base.{◌≡◌, refl, sym, ap, ◌∙◌, true, [], ◌∷◌, none, some}
use rules_analyzer.Bdd.TruthTable.{truth_table, Sample, ssh, http, dns, ping}
use rules_analyzer.Address.{any_address_group, ip4_model, source, destination}
use rules_analyzer.Service.{ServiceGroup, tcp, any_service_group}
use rules_analyzer.Predicate.{make_bdd_with}
use rules_analyzer.Rule.{Rule, allow}
use rules_analyzer.Group.Clone.{clone, clone_members}
use rules_analyzer.PacketTester.{Traffic, test_rules, is_packet_allowed}
use rules_analyzer.PacketTester.Given.{is_traffic, matches_given}
use rules_analyzer.PacketTester.Laws.{IsUniform, answer, first_given, is_packet_allowed-first_given}
use rules_analyzer.Samples.{
  sample_rule, one_service, sample_acl, allow_ssh, deny_low_ports, allow_http, deny_all, analysis,
}

abbrev traffic_of : ServiceGroup → Traffic
traffic_of services = record {
  src_zone = none;
  src_addr_grp = any_address_group source ip4_model 300 301 302;
  dst_zone = none;
  dst_addr_grp = any_address_group destination ip4_model 303 304 305;
  svc_grp = services;
  app_grp = none;
  usr_grp = none;
  url_grp = none;
}

abbrev ssh_traffic : Traffic
ssh_traffic = traffic_of (one_service tcp 22 22)

ssh_allowed : is_packet_allowed truth_table 400 ssh_traffic sample_acl ≡ (true, some allow_ssh)
unfolding analysis is_packet_allowed test_rules make_bdd_with clone clone_members
ssh_allowed = refl

-- The tester passes over a rule that denies a part of the traffic.
abbrev allow_any : Rule
allow_any = sample_rule 5 allow (any_service_group 310 311)

partly_denied :
    is_packet_allowed truth_table 400
      (traffic_of (any_service_group 312 313))
      (deny_low_ports ∷ allow_any ∷ [])
    ≡ (true, some allow_any)
unfolding analysis is_packet_allowed test_rules make_bdd_with clone clone_members
partly_denied = refl

ssh_only : (p : Sample) → is_traffic truth_table ssh_traffic p ≡ true → p ≡ ssh
unfolding analysis
ssh_only ssh h = refl
ssh_only http h = cc
ssh_only dns h = cc
ssh_only ping h = cc

uniform_rule :
    (r : Rule) (p q : Sample)
    → is_traffic truth_table ssh_traffic p ≡ true
    → is_traffic truth_table ssh_traffic q ≡ true
    → matches_given truth_table 400 ssh_traffic r p ≡ matches_given truth_table 400 ssh_traffic r q
uniform_rule r p q h k =
    ap (matches_given truth_table 400 ssh_traffic r) (ssh_only p h ∙ sym (ssh_only q k))

ssh-IsUniform : IsUniform truth_table 400 ssh_traffic sample_acl
ssh-IsUniform = (
  uniform_rule allow_ssh,
  (uniform_rule deny_low_ports, (uniform_rule allow_http, (uniform_rule deny_all, tt))),
)

ssh_tested : is_traffic truth_table ssh_traffic ssh ≡ true
unfolding analysis
ssh_tested = refl

is_packet_allowed-first_given_example :
    is_packet_allowed truth_table 400 ssh_traffic sample_acl
    ≡ answer truth_table (first_given truth_table 400 ssh_traffic sample_acl ssh)
is_packet_allowed-first_given_example =
    is_packet_allowed-first_given truth_table 400 ssh_traffic sample_acl ssh ssh_tested
      ssh-IsUniform
