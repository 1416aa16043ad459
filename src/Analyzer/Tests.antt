-- ===== src/Analyzer/Tests.antt =====
-- Runs of the analyzer on the sample rules, and the theorems about it at these.
use rules_analyzer.Base.{◌≡◌, refl, ◌↔◌, true, false, [], ◌∷◌, none, some}
use rules_analyzer.Bdd.TruthTable.{truth_table}
use rules_analyzer.Bdd.TruthTable as Table
use rules_analyzer.Address.{ip4_model}
use rules_analyzer.Rule.{rule_bdd}
use rules_analyzer.Anomaly.{RuleAnomalies, shadowed, generalized}
use rules_analyzer.Analyzer.{Bddcache, lookup, check_rule, check_anomaly}
use rules_analyzer.Base.{ok}
use rules_analyzer.Analyzer.Search.{Cached}
use rules_analyzer.State.{State}
use rules_analyzer.State.FirstMatch.{matched, decide, run}
use rules_analyzer.Analyzer.Run.{Fresh, Reports, start, run-Tracks, check_anomaly_explains}
use rules_analyzer.Analyzer.Removal.{AllRemovable, check_anomaly_removable, check_rule-none_movable}
use rules_analyzer.Samples.{
  deny_all, diagrams, analysis, sample_acl, allow_ssh, allow_http, deny_low_ports,
}

ssh_rule : truth_table.holds (rule_bdd truth_table allow_ssh) Table.ssh ≡ true
unfolding diagrams
ssh_rule = refl

abbrev sample_anomalies : RuleAnomalies
sample_anomalies = record {
  anomalies =
      record { rule = deny_low_ports; details = generalized (allow_ssh ∷ []) }
      ∷ record { rule = allow_http; details = shadowed (deny_low_ports ∷ []) }
      ∷ [];
  missing_deny_all = false;
}

sample_run : check_anomaly truth_table ip4_model 200 (λ k. false) sample_acl ≡ ok sample_anomalies
unfolding check_anomaly analysis
sample_run = refl

sample-Fresh : Fresh [] sample_acl
sample-Fresh = (refl, refl, (refl, refl, (refl, refl, (refl, refl, tt))))

check_anomaly_explains_example :
    (x : RuleAnomalies) × (check_anomaly truth_table ip4_model 200 (λ k. false) sample_acl ≡ ok x)
    × Reports truth_table sample_acl [] sample_acl x.anomalies
    × ((x.missing_deny_all ≡ false)
        ↔ ((p : Table.Sample) → matched truth_table sample_acl p ≡ true))
check_anomaly_explains_example =
    check_anomaly_explains truth_table ip4_model 200 (λ k. false) sample_acl (λ k. refl)
      sample-Fresh

check_anomaly_removable_example : AllRemovable truth_table sample_acl sample_anomalies.anomalies
check_anomaly_removable_example =
    check_anomaly_removable truth_table sample_acl ip4_model 200 (λ k. false) sample_anomalies
      (λ k. refl) sample-Fresh sample_run

-- No rule in front denies, so `allow_http` gets no report behind `allow_ssh`.
abbrev ssh_cache : Bddcache truth_table
ssh_cache = (1, rule_bdd truth_table allow_ssh) ∷ (3, rule_bdd truth_table allow_http) ∷ []

abbrev after_ssh : State truth_table
after_ssh = run truth_table (start truth_table) (allow_ssh ∷ [])

http_unreported :
    check_rule truth_table (allow_ssh ∷ allow_http ∷ deny_all ∷ []) allow_http after_ssh ssh_cache
    ≡ ok none
unfolding analysis
http_unreported = refl

ssh-Cached : Cached truth_table ssh_cache (allow_ssh ∷ [])
unfolding lookup
ssh-Cached = (refl, tt)

http_cached : lookup truth_table 3 ssh_cache ≡ some (rule_bdd truth_table allow_http)
unfolding lookup
http_cached = refl

check_rule-none_movable_example :
    decide truth_table (allow_http ∷ allow_ssh ∷ deny_all ∷ []) Table.http
    ≡ decide truth_table (allow_ssh ∷ allow_http ∷ deny_all ∷ []) Table.http
check_rule-none_movable_example =
    check_rule-none_movable truth_table (allow_ssh ∷ []) (deny_all ∷ []) allow_http after_ssh
      ssh_cache refl ssh-Cached http_cached (run-Tracks truth_table (allow_ssh ∷ []))
      http_unreported Table.http
