-- ===== src/RuleList/Zones/Tests.antt =====
-- The zones of a rule from the local network, and of a rule from anywhere.
use rules_analyzer.Base.{◌≡◌, refl, ◌||◌, any, [], ◌∷◌}
use rules_analyzer.Bdd.TruthTable.{truth_table}
use rules_analyzer.Group.{group, item, nil, plain, items}
use rules_analyzer.Domain.{src_zone}
use rules_analyzer.Zone.{create_zone}
use rules_analyzer.Rule.{Rule}
use rules_analyzer.NamedList.{push_back}
use rules_analyzer.NamedList.Names.{names_of}
use rules_analyzer.Samples.{allow_ssh, deny_low_ports}
use rules_analyzer.RuleList.{RuleList}
use rules_analyzer.RuleList.Zones.{
  zone_names, push_zones, push_all_zones, all_zones, push_src_zones, all_src_zones, ListsNames,
  is_src_zone_name, is_dst_zone_name, all_zones_names,
}

abbrev from_lan : Rule
from_lan = record allow_ssh {
  predicate = record allow_ssh.predicate {
    src_zones = group plain 10 "inside" (item (create_zone src_zone 7 "lan" 1) nil);
  };
}

abbrev two_rules : RuleList
two_rules = from_lan ∷ deny_low_ports ∷ []

-- The zone at 101 is left out, the one at 103 that has its name is not.
all_zones_runs :
    names_of zone_names (all_zones truth_table (101 ∷ []) two_rules).named_node_list
    ≡ "lan" ∷ "any" ∷ []
unfolding all_zones push_all_zones push_zones push_back items
all_zones_runs = refl

all_src_zones_runs :
    names_of zone_names (all_src_zones truth_table (101 ∷ []) two_rules).named_node_list
    ≡ "lan" ∷ []
unfolding all_src_zones push_src_zones push_zones push_back items
all_src_zones_runs = refl

all_zones_names_example :
    ListsNames truth_table
      (101 ∷ [])
      (λ n.
        any
          (λ r.
            is_src_zone_name truth_table (101 ∷ []) n r
            || is_dst_zone_name truth_table (101 ∷ []) n r)
          two_rules)
      (all_zones truth_table (101 ∷ []) two_rules)
all_zones_names_example = all_zones_names truth_table (101 ∷ []) two_rules
