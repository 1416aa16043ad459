-- ===== src/State/Tests.antt =====
-- The state of the analyzer on the sample rules.
use rules_analyzer.Base.{◌≡◌, ◌&&◌, not}
use rules_analyzer.Bdd.TruthTable.{truth_table, http}
use rules_analyzer.Rule.{allow, deny}
use rules_analyzer.State.{initial}
use rules_analyzer.State.FirstMatch.{run, decides, matched, run_first_match}
use rules_analyzer.Samples.{sample_acl}

run_first_match_example :
    (truth_table.holds
        (run truth_table (initial truth_table truth_table.bddtrue) sample_acl).accepted
        http
      ≡ (truth_table.holds truth_table.bddtrue http && decides truth_table allow sample_acl http))
    × (truth_table.holds
          (run truth_table (initial truth_table truth_table.bddtrue) sample_acl).denied
          http
        ≡ (truth_table.holds truth_table.bddtrue http && decides truth_table deny sample_acl http))
    × (truth_table.holds
          (run truth_table (initial truth_table truth_table.bddtrue) sample_acl).remaining
          http
        ≡ (truth_table.holds truth_table.bddtrue http && not (matched truth_table sample_acl http)))
run_first_match_example = run_first_match truth_table truth_table.bddtrue sample_acl http
