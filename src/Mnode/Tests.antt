-- ===== src/Mnode/Tests.antt =====
-- The comparison of nodes on truth tables.
use rules_analyzer.Base.{◌≡◌, refl, ◌↔◌, true, false}
use rules_analyzer.Bdd.TruthTable.{truth_table, Table}
use rules_analyzer.Base.{Bool}
use rules_analyzer.Mnode.{MnodeRelationship, compare}
use rules_analyzer.Mnode.Laws.{Means, compare_iff}

abbrev tcp_only : Table Bool
tcp_only = record { on_ssh = true; on_http = true; on_dns = false; on_ping = false }

abbrev ssh_only : Table Bool
ssh_only = record { on_ssh = true; on_http = false; on_dns = false; on_ping = false }

compare_runs : compare truth_table ssh_only tcp_only ≡ MnodeRelationship.subset
unfolding compare
compare_runs = refl

compare_iff_example :
    (compare truth_table ssh_only tcp_only ≡ MnodeRelationship.subset)
    ↔ Means truth_table MnodeRelationship.subset ssh_only tcp_only
compare_iff_example = compare_iff truth_table MnodeRelationship.subset ssh_only tcp_only
