-- ===== src/Predicate/Tests.antt =====
-- The diagrams of the predicate of a sample rule.
use rules_analyzer.Base.{◌≡◌, refl, true}
use rules_analyzer.Bdd.TruthTable.{truth_table, ssh, dns}
use rules_analyzer.Options as Sets
use rules_analyzer.Predicate.{make_bdd, make_bdd_with}
use rules_analyzer.Predicate.Projection.{
  all_options, make_bdd_with-all_options, make_bdd_with-make_bdd,
}
use rules_analyzer.Samples.{allow_ssh, diagrams}

make_bdd_with-all_options_example :
    truth_table.holds (make_bdd_with truth_table 700 all_options allow_ssh.predicate) dns
    ≡ truth_table.holds (make_bdd truth_table allow_ssh.predicate) dns
make_bdd_with-all_options_example =
    make_bdd_with-all_options truth_table 700 allow_ssh.predicate dns refl

ssh_matches : truth_table.holds (make_bdd truth_table allow_ssh.predicate) ssh ≡ true
unfolding diagrams
ssh_matches = refl

make_bdd_with-make_bdd_example :
    truth_table.holds (make_bdd_with truth_table 700 Sets.empty allow_ssh.predicate) ssh ≡ true
make_bdd_with-make_bdd_example =
    make_bdd_with-make_bdd truth_table 700 Sets.empty allow_ssh.predicate ssh refl refl ssh_matches
