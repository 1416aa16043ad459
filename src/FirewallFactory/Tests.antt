-- ===== src/FirewallFactory/Tests.antt =====
-- A policy of three rows: an enabled rule, a disabled one, and a row that is not valid in front of a rule.
use rules_analyzer.Base.{
  ℕ, ◌+◌, ◌≡◌, refl, true, false, List, [], ◌∷◌, Option, some, none, String, Outcome, ok, err,
}
use rules_analyzer.Strutil.{codes}
use rules_analyzer.Split.{split}
use rules_analyzer.Bdd.TruthTable.{truth_table}
use rules_analyzer.Format.Digits.{digits_format}
use rules_analyzer.IpConvertor.Unary.{unary}
use rules_analyzer.Address.{ip4_model}
use rules_analyzer.AddressParser.{is_ip_address}
use rules_analyzer.Group.{add_item}
use rules_analyzer.Firewall.{new_firewall}
use rules_analyzer.Firewall.Access.{new_firewall-IsWellFormed}
use rules_analyzer.PolicyReader.{RuleObject}
use rules_analyzer.ObjectStore.{AddressObject, cleared, get_address}
use rules_analyzer.Network.{new_network}
use rules_analyzer.Network.Register.{
  register_address, register_application, register_service, register_user, register_url,
}
use rules_analyzer.FirewallFactory.Kinds.{resolve_app_services}
use rules_analyzer.FirewallFactory.{FactoryFault}
use rules_analyzer.FirewallFactory.Status.{Loading, new_status}
use rules_analyzer.FirewallFactory.Rules.{load_rows, load_rules}
use rules_analyzer.FirewallFactory.Rules.Counts.{IsLoaded, load_rows-IsLoaded}

abbrev any_row : ℕ → String → RuleObject
any_row id status = record {
  row_number = id + 1;
  id = id;
  name = "rule";
  status = codes status;
  action = codes "Allow";
  source_zones = "any" ∷ [];
  destination_zones = "any" ∷ [];
  source_addresses = "any" ∷ [];
  negate_source_addresses = false;
  destination_addresses = "any" ∷ [];
  negate_destination_addresses = false;
  services = "any" ∷ [];
  applications = "any" ∷ [];
  users = "any" ∷ [];
  urls = "any" ∷ [];
}

abbrev policy : List (Option RuleObject)
policy =
    some (any_row 1 "enabled")
    ∷ some (any_row 2 "disabled")
    ∷ some (any_row 2 "enabled")
    ∷ none
    ∷ some (any_row 3 "enabled")
    ∷ []

abbrev no_hosts : AddressObject → Option AddressObject
no_hosts o = none

abbrev counts : Outcome FactoryFault Loading → ℕ × ℕ × ℕ
counts (ok s) = (s.status.loaded_count, s.status.error_count, s.status.disabled_count)
counts (err fault) = (0, 0, 0)

-- The second rule with the id 2 is an error, and the row that is not valid ends the loop. One rule is
-- disabled.
load_runs :
    counts (
      load_rules truth_table digits_format unary no_hosts
        (cleared ip4_model)
        false
        policy
        (new_firewall "fw")
        (new_network ip4_model true))
    ≡ (2, 1, 1)
unfolding load_rules new_firewall new_network cleared is_ip_address get_address register_address
    resolve_app_services split register_application register_service register_user register_url
    add_item
load_runs = refl

abbrev before : Loading
before = record {
  firewall = new_firewall "fw";
  network = new_network ip4_model true;
  status = new_status;
}

abbrev result_of : Loading → Outcome FactoryFault Loading → Loading
result_of s (ok t) = t
result_of s (err fault) = s

abbrev loaded : Outcome FactoryFault Loading
loaded = load_rows truth_table digits_format unary no_hosts (cleared ip4_model) policy before

loaded_ok :
    load_rows truth_table digits_format unary no_hosts (cleared ip4_model) policy before
    ≡ ok (result_of before loaded)
unfolding load_rows new_firewall new_network cleared is_ip_address get_address register_address
    resolve_app_services split register_application register_service register_user register_url
    add_item
loaded_ok = refl

load_rows-IsLoaded_example :
    IsLoaded truth_table digits_format unary no_hosts
      (cleared ip4_model)
      policy
      before
      (result_of before loaded)
unfolding new_firewall
load_rows-IsLoaded_example =
    load_rows-IsLoaded truth_table digits_format unary no_hosts (cleared ip4_model) policy before
      (result_of before loaded) (new_firewall-IsWellFormed "fw") tt loaded_ok

abbrev with_deny : Outcome FactoryFault Loading
with_deny =
    load_rules truth_table digits_format unary no_hosts (cleared ip4_model) true policy
      (new_firewall "fw") (new_network ip4_model true)
