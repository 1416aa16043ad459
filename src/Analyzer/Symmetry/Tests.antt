-- ===== src/Analyzer/Symmetry/Tests.antt =====
-- Rules that are each other with the sides swapped.
use rules_analyzer.Base.{ℕ, ◌==◌, ◌≡◌, refl, ap, ◌∙◌, Bool, false, [], ◌∷◌, ok, if◌then◌else◌}
use rules_analyzer.Bdd.TruthTable.{truth_table, Table}
use rules_analyzer.Group.{parse, items}
use rules_analyzer.Group.Clone.{clone, clone_members}
use rules_analyzer.Service.{tcp}
use rules_analyzer.Predicate.Symmetrical.{symmetrical}
use rules_analyzer.Rule.{Rule, allow, rule_bdd}
use rules_analyzer.RuleList.{RuleList}
use rules_analyzer.Mnode.{equals}
use rules_analyzer.Analyzer.Symmetry.{symmetrical_bdd, check_symmetry}
use rules_analyzer.Analyzer.Symmetry.Pairs.{
  AllNamed, symmetrical_pairs, check_symmetry-symmetrical_pairs,
}
use rules_analyzer.Analyzer.Symmetry.Turned.{Pairs}
use rules_analyzer.Samples.{sample_rule, one_service, allow_ssh, allow_http, diagrams}

-- A rule between any zones and addresses is its own other way.
abbrev ssh_again : Rule
ssh_again = sample_rule 5 allow (one_service tcp 22 22)

abbrev mixed : RuleList
mixed = allow_ssh ∷ allow_http ∷ ssh_again ∷ []

abbrev other_way : ℕ → Table Bool
other_way id = if id == 3 then rule_bdd truth_table allow_http else rule_bdd truth_table allow_ssh

mixed-AllNamed : AllNamed truth_table 600 500 other_way mixed
unfolding diagrams symmetrical_bdd symmetrical items parse clone clone_members
mixed-AllNamed = (refl, (refl, (refl, tt)))

one_pair : symmetrical_pairs truth_table 600 500 other_way mixed ≡ (allow_ssh, ssh_again) ∷ []
unfolding diagrams equals
one_pair = refl

returned : check_symmetry truth_table 600 500 (λ k. false) mixed ≡ ok ((allow_ssh, ssh_again) ∷ [])
returned =
    check_symmetry-symmetrical_pairs truth_table 600 500 other_way (λ k. false) mixed (λ k. refl)
      mixed-AllNamed
    ∙ ap ok one_pair
