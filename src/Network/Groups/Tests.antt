-- ===== src/Network/Groups/Tests.antt =====
-- Groups of services: one with two ports, and one that names itself.
use rules_analyzer.Base.{◌≡◌, refl, true, [], ◌∷◌, List, String, Outcome, ok, err}
use rules_analyzer.Strutil.Case.{iequal}
use rules_analyzer.Strutil.Numbers.{str2num}
use rules_analyzer.Split.{split, split_from}
use rules_analyzer.Bdd.TruthTable.{truth_table}
use rules_analyzer.Format.Digits.{digits_format}
use rules_analyzer.Group.{names, add_item}
use rules_analyzer.ServiceParser.{parse_port_range}
use rules_analyzer.Service.{ServiceGroup, service_node}
use rules_analyzer.Address.{ip4_model}
use rules_analyzer.Network.{Network, NetworkFault, cyclic_group, new_network}
use rules_analyzer.Network.Register.{register}
use rules_analyzer.Network.Groups.{
  add_indexed, add_members, register_multi_service, register_service_group,
}

abbrev names_of : Outcome NetworkFault (ServiceGroup × Network) → Outcome NetworkFault (List String)
names_of (ok (g, nw)) = ok (names (service_node truth_table) g)
names_of (err fault) = err fault

two_indexed :
    names_of (
      register_multi_service truth_table digits_format "web"
        ("tcp/80" ∷ "tcp/443" ∷ [])
        (new_network ip4_model true))
    ≡ ok ("web[]" ∷ "web[i]" ∷ [])
unfolding register_multi_service register add_indexed add_item parse_port_range iequal str2num split
    split_from new_network
two_indexed = refl

known_member :
    names_of (
      register_service_group truth_table "services"
        ("any" ∷ "unknown" ∷ [])
        (new_network ip4_model true))
    ≡ ok ("any" ∷ [])
unfolding register_service_group register add_members add_item new_network
known_member = refl

names_itself :
    names_of
      (register_service_group truth_table "services" ("services" ∷ []) (new_network ip4_model true))
    ≡ err (cyclic_group "services")
unfolding register_service_group register add_members new_network
names_itself = refl
