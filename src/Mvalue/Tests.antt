-- ===== src/Mvalue/Tests.antt =====
-- A range of TCP ports on a sample packet.
use rules_analyzer.Base.{◌≡◌, refl, ◌&&◌, leb, arith}
use rules_analyzer.Bdd.TruthTable.{truth_table, http}
use rules_analyzer.Domain.{dst_tcp_port, create_range}
use rules_analyzer.Mvalue.{Mvalue, make_bdd, value}
use rules_analyzer.Mvalue.Laws.{IsWellFormed, holds-make_bdd}

abbrev low_ports : Mvalue
low_ports = record { domain = dst_tcp_port; range = create_range dst_tcp_port 0 1023 }

low_ports-IsWellFormed : IsWellFormed low_ports
low_ports-IsWellFormed = record { wide = refl; ordered = omega arith; bounded = omega arith }

holds-make_bdd_example : truth_table.holds (make_bdd truth_table low_ports) http ≡ (
    leb 0 (value truth_table dst_tcp_port http) && leb (value truth_table dst_tcp_port http) 1023)
holds-make_bdd_example = holds-make_bdd truth_table low_ports http low_ports-IsWellFormed
