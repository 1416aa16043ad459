-- ===== src/Comparator/Tests.antt =====
-- The comparator on the sample rules.
use rules_analyzer.Base.{◌≡◌, refl, ◌↔◌, [], ◌∷◌}
use rules_analyzer.Bdd.TruthTable.{truth_table, Sample, ssh}
use rules_analyzer.Mnode.{equal, compare}
use rules_analyzer.Rule.{allow, deny}
use rules_analyzer.RuleList.{RuleList}
use rules_analyzer.State.FirstMatch.{decide, decides}
use rules_analyzer.Comparator.{compute_from, compute_bdd, compare_lists}
use rules_analyzer.Comparator.Laws.{active, compute_bdd_first_match, compare_lists_equal_iff}
use rules_analyzer.Samples.{allow_ssh, deny_low_ports, deny_all, sample_acl, diagrams}

-- The sample list without its shadowed rule.
abbrev shorter_acl : RuleList
shorter_acl = allow_ssh ∷ deny_low_ports ∷ deny_all ∷ []

same_policy :
    compare_lists truth_table sample_acl shorter_acl
    ≡ record { on_allowed = equal; on_denied = equal }
unfolding compare_lists compute_bdd compute_from compare diagrams
same_policy = refl

compute_bdd_first_match_example :
    (truth_table.holds (compute_bdd truth_table sample_acl).allowed ssh
      ≡ decides truth_table allow (active sample_acl) ssh)
    × (truth_table.holds (compute_bdd truth_table sample_acl).denied ssh
        ≡ decides truth_table deny (active sample_acl) ssh)
compute_bdd_first_match_example = compute_bdd_first_match truth_table sample_acl ssh

compare_lists_equal_iff_example :
    (compare_lists truth_table sample_acl shorter_acl
      ≡ record { on_allowed = equal; on_denied = equal })
    ↔ ((p : Sample)
        → decide truth_table (active sample_acl) p ≡ decide truth_table (active shorter_acl) p)
compare_lists_equal_iff_example = compare_lists_equal_iff truth_table sample_acl shorter_acl
