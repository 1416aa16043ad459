-- ===== src/ServiceParser.antt =====
-- src/model/serviceparser.cpp: a service in the form protocol{/port{-port}}, and Service::create of
-- src/model/service.cpp.
pub mod Ports
pub mod Digits
mod Tests
use rules_analyzer.Base.{
  ℕ, ◌-◌, ◌%◌, ◌^◌, ◌==◌, Bool, true, false, if◌then◌else◌, leb, List, [], ◌∷◌, Option, none, some,
  ℤ, pos, negsuc, Outcome, ok, err, ◌>>=◌, String,
}
use rules_analyzer.Strutil.{Text}
use rules_analyzer.Strutil.Case.{iequal}
use rules_analyzer.Strutil.Numbers.{str2num}
use rules_analyzer.Split.{split}
use rules_analyzer.Domain.{max_value}
use rules_analyzer.Service.{ProtocolType, any, udp, tcp, icmp, ports_domain, Service, new_service}

-- ServiceError, and the read of the first part where a split has none, which is undefined.
pub data ServiceFault : Type 0 where
  service_error no_part : ServiceFault

abbrev pub slash : ℕ
slash = 47

abbrev pub hyphen : ℕ
hyphen = 45

-- A split always ends within its fuel.
abbrev pub parts_of : Option (List Text) → List Text
parts_of none = []
parts_of (some parts) = parts

-- `name()` of TcpProtocol, UdpProtocol and IcmpProtocol.
abbrev pub protocol_text : ProtocolType → Text
protocol_text any = []
protocol_text udp = 117 ∷ 100 ∷ 112 ∷ []
protocol_text tcp = 116 ∷ 99 ∷ 112 ∷ []
protocol_text icmp = 105 ∷ 99 ∷ 109 ∷ 112 ∷ []

-- The conversion of a long to uint16_t.
abbrev pub to_uint16 : ℤ → ℕ
to_uint16 (pos n) = n % 2 ^ 16
to_uint16 (negsuc n) = 2 ^ 16 - 1 - n % 2 ^ 16

abbrev pub port_of : Option ℤ → Option ℕ
port_of none = none
port_of (some value) = some (to_uint16 value)

abbrev pub parse_port : Text → ℕ → Option ℕ
parse_port text max = port_of (str2num text (pos 0) (pos max))

abbrev pub in_order : ℕ → ℕ → Option (ℕ × ℕ)
in_order lvalue uvalue = if leb lvalue uvalue then some (lvalue, uvalue) else none

abbrev pub one_port : Option ℕ → Option (ℕ × ℕ)
one_port none = none
one_port (some lvalue) = in_order lvalue lvalue

abbrev pub two_ports : Option ℕ → Option ℕ → Option (ℕ × ℕ)
two_ports none uvalue = none
two_ports (some lvalue) none = none
two_ports (some lvalue) (some uvalue) = in_order lvalue uvalue

abbrev pub port_range : List Text → ℕ → Outcome ServiceFault (Option (ℕ × ℕ))
port_range [] max = err no_part
port_range (a ∷ []) max = ok (one_port (parse_port a max))
port_range (a ∷ b ∷ []) max = ok (two_ports (parse_port a max) (parse_port b max))
port_range (a ∷ b ∷ c ∷ parts) max = ok none

-- The result, with `ok none` where the function returns false.
unfoldable pub parse_port_range : Text → ℕ → Outcome ServiceFault (Option (ℕ × ℕ))
parse_port_range range max = port_range (parts_of (split range hyphen)) max

abbrev pub protocol_of : Text → Option ProtocolType
protocol_of name =
    if iequal name (protocol_text tcp)
    then some tcp
    else if iequal name (protocol_text udp)
    then some udp
    else if iequal name (protocol_text icmp)
    then some icmp
    else none

abbrev pub ServiceSpec : Type 0
ServiceSpec = ProtocolType × ℕ × ℕ

abbrev pub with_range : ProtocolType → Option (ℕ × ℕ) → Outcome ServiceFault ServiceSpec
with_range pt none = err service_error
with_range pt (some (lower, upper)) = ok (pt, lower, upper)

abbrev pub with_protocol : Option ProtocolType → List Text → Outcome ServiceFault ServiceSpec
with_protocol none ports = err service_error
with_protocol (some pt) [] = ok (pt, 0, max_value (ports_domain pt))
with_protocol (some pt) (range ∷ ports) =
    parse_port_range range (max_value (ports_domain pt)) >>= with_range pt

abbrev pub parse_parts : List Text → Outcome ServiceFault ServiceSpec
parse_parts [] = err no_part
parse_parts (name ∷ []) = with_protocol (protocol_of name) []
parse_parts (name ∷ range ∷ []) = with_protocol (protocol_of name) (range ∷ [])
parse_parts (name ∷ range ∷ more ∷ parts) = err service_error

unfoldable pub parse_protocol_port : Text → Outcome ServiceFault ServiceSpec
parse_protocol_port [] = err service_error
parse_protocol_port (c ∷ proto_port) = parse_parts (parts_of (split (c ∷ proto_port) slash))

-- Whether the parse succeeds; a read of a part that is not there is no ServiceError.
abbrev pub is_valid : Outcome ServiceFault ServiceSpec → Outcome ServiceFault Bool
is_valid (ok spec) = ok true
is_valid (err service_error) = ok false
is_valid (err no_part) = err no_part

unfoldable pub is_protocol_port : Text → Outcome ServiceFault Bool
unfolding parse_protocol_port
is_protocol_port proto_port = is_valid (parse_protocol_port proto_port)

abbrev pub service_of : ℕ → String → ServiceSpec → Outcome ServiceFault Service
service_of a n (any, lower, upper) = err service_error
service_of a n (udp, lower, upper) = ok (new_service udp a n lower upper)
service_of a n (tcp, lower, upper) = ok (new_service tcp a n lower upper)
service_of a n (icmp, lower, upper) = ok (new_service icmp a n lower upper)

-- `Service::create`, at an address.
unfoldable pub create_service : ℕ → String → Text → Outcome ServiceFault Service
unfolding parse_protocol_port
create_service a n proto_port = parse_protocol_port proto_port >>= service_of a n
