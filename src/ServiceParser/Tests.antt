-- ===== src/ServiceParser/Tests.antt =====
-- Services in text.
use rules_analyzer.Base.{ℕ, ◌≡◌, refl, [], ◌∷◌, ok, err, arith}
use rules_analyzer.Strutil.{Text}
use rules_analyzer.Strutil.Case.{iequal}
use rules_analyzer.Strutil.Numbers.{str2num}
use rules_analyzer.Split.{split, split_from}
use rules_analyzer.Service.{tcp, udp, icmp}
use rules_analyzer.ServiceParser.{service_error, no_part, parse_port_range, parse_protocol_port}
use rules_analyzer.ServiceParser.Ports.{IsSpec, parse_protocol_port_bounds}
use rules_analyzer.ServiceParser.Digits.{parse_protocol_port-digits}

-- "Udp/23-33".
abbrev udp_ports : Text
udp_ports = 85 ∷ 100 ∷ 112 ∷ 47 ∷ 50 ∷ 51 ∷ 45 ∷ 51 ∷ 51 ∷ []

unfoldable parser : ℕ
unfolding parse_protocol_port parse_port_range split split_from str2num iequal
parser = 0

udp_ports_parse : parse_protocol_port udp_ports ≡ ok (udp, 23, 33)
unfolding parser
udp_ports_parse = refl

-- "icmp".
whole_domain : parse_protocol_port (105 ∷ 99 ∷ 109 ∷ 112 ∷ []) ≡ ok (icmp, 0, 65535)
unfolding parser
whole_domain = refl

-- "tcp/33-23".
out_of_order :
    parse_protocol_port (116 ∷ 99 ∷ 112 ∷ 47 ∷ 51 ∷ 51 ∷ 45 ∷ 50 ∷ 51 ∷ []) ≡ err service_error
unfolding parser
out_of_order = refl

-- "/" has no parts, and the first is read.
no_first_part : parse_protocol_port (47 ∷ []) ≡ err no_part
unfolding parser
no_first_part = refl

-- "tcp/-".
no_port : parse_protocol_port (116 ∷ 99 ∷ 112 ∷ 47 ∷ 45 ∷ []) ≡ err no_part
unfolding parser
no_port = refl

parse_protocol_port_bounds_example : IsSpec (udp, 23, 33)
parse_protocol_port_bounds_example =
    parse_protocol_port_bounds udp_ports (udp, 23, 33) udp_ports_parse

parse_protocol_port-digits_example :
    parse_protocol_port (116 ∷ 99 ∷ 112 ∷ 47 ∷ 50 ∷ 50 ∷ 45 ∷ 56 ∷ 48 ∷ []) ≡ ok (tcp, 22, 80)
parse_protocol_port-digits_example =
    parse_protocol_port-digits tcp (50 ∷ 50 ∷ []) (56 ∷ 48 ∷ []) tt refl refl (omega arith)
      (omega arith)
