-- ===== src/Group/Tests.antt =====
-- A group with a group inside it that repeats an item.
use rules_analyzer.Base.{◌≡◌, refl, [], ◌∷◌}
use rules_analyzer.Bdd.TruthTable.{truth_table, http}
use rules_analyzer.Domain.{src_zone}
use rules_analyzer.Zone.{Zone, create_zone, zone_node}
use rules_analyzer.Group.{Group, group, item, sub, nil, plain, items, make_bdd}
use rules_analyzer.Group.Clone.{clone, make_bdd-clone}
use rules_analyzer.Group.Flat.{Holds_some, flat, IsPlain, holds-make_bdd_flat}

abbrev inner : Group Zone
inner =
    group plain 10 "inner"
      (item (create_zone src_zone 1 "dmz" 1) (item (create_zone src_zone 2 "lan" 2) nil))

abbrev outer : Group Zone
outer = group plain 11 "outer" (item (create_zone src_zone 1 "dmz" 1) (sub inner nil))

items_runs :
    items (zone_node truth_table) outer
    ≡ create_zone src_zone 1 "dmz" 1 ∷ create_zone src_zone 2 "lan" 2 ∷ []
unfolding items
items_runs = refl

holds-make_bdd_flat_example :
    truth_table.holds (make_bdd (zone_node truth_table) outer) http
    ≡ Holds_some (zone_node truth_table) http (flat outer)
unfolding IsPlain
holds-make_bdd_flat_example = holds-make_bdd_flat (zone_node truth_table) outer http ((tt, tt))

make_bdd-clone_example :
    make_bdd (zone_node truth_table) (clone 20 outer) ≡ make_bdd (zone_node truth_table) outer
make_bdd-clone_example = make_bdd-clone truth_table (zone_node truth_table) 20 outer
