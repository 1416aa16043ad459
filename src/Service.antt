-- ===== src/Service.antt =====
-- src/model/protocol.cpp, src/model/ports.cpp and src/model/service.cpp: protocols, ports and
-- services.
use rules_analyzer.Base.{ℕ, Bool, true, false, if◌then◌else◌, String}
use rules_analyzer.Bdd.{Buddy}
use rules_analyzer.Domain.{
  DomainType, protocol, dst_tcp_port, dst_udp_port, icmp_type, create_range, create_full_range,
  create_singleton,
}
use rules_analyzer.Mvalue.{Mvalue}
use rules_analyzer.Mvalue as Value
use rules_analyzer.Group.{
  Node, Group, group, item, nil, any_group, app_default, GroupClass, group_class,
}

pub data ProtocolType : Type 0 where
  any udp tcp icmp : ProtocolType

-- The values of the enumerators of the three real protocols.
abbrev pub protocol_number : ProtocolType → ℕ
protocol_number any = 0
protocol_number udp = 0
protocol_number tcp = 1
protocol_number icmp = 2

pub record Protocol : Type 0 where
  pub pt : ProtocolType
  pub value : Mvalue

abbrev pub any_protocol : Protocol
any_protocol = record {
  pt = any;
  value = record { domain = protocol; range = create_full_range protocol };
}

-- TcpProtocol, UdpProtocol and IcmpProtocol.
abbrev pub new_protocol : ProtocolType → Protocol
new_protocol any = any_protocol
new_protocol pt = record {
  pt = pt;
  value = record { domain = protocol; range = create_singleton protocol (protocol_number pt) };
}

pub record Ports : Type 0 where
  pub is_any_ports : Bool
  pub value : Mvalue

-- The domain of AnyPorts does not matter, as its diagram is truth.
abbrev pub any_ports : Ports
any_ports = record {
  is_any_ports = true;
  value = record { domain = dst_tcp_port; range = create_full_range dst_tcp_port };
}

-- The domain that the ports of a protocol are tested in.
abbrev pub ports_domain : ProtocolType → DomainType
ports_domain any = dst_tcp_port
ports_domain udp = dst_udp_port
ports_domain tcp = dst_tcp_port
ports_domain icmp = icmp_type

-- TcpPorts, UdpPorts and IcmpPorts. UdpPorts builds its range by the domain of the TCP ports.
abbrev pub new_ports : ProtocolType → ℕ → ℕ → Ports
new_ports udp lower upper = record {
  is_any_ports = false;
  value = record { domain = dst_udp_port; range = create_range dst_tcp_port lower upper };
}
new_ports pt lower upper = record {
  is_any_ports = false;
  value = record { domain = ports_domain pt; range = create_range (ports_domain pt) lower upper };
}

pub record Service : Type 0 where
  pub address : ℕ
  pub name : String
  -- ServiceAny, which overrides `make_bdd`.
  pub is_any_service : Bool
  pub protocol : Protocol
  pub ports : Ports

abbrev pub any_service : ℕ → Service
any_service a = record {
  address = a;
  name = "any";
  is_any_service = true;
  protocol = any_protocol;
  ports = any_ports;
}

-- TcpService, UdpService and IcmpService.
abbrev pub new_service : ProtocolType → ℕ → String → ℕ → ℕ → Service
new_service pt a n lower upper = record {
  address = a;
  name = n;
  is_any_service = false;
  protocol = new_protocol pt;
  ports = new_ports pt lower upper;
}

abbrev pub ServiceGroup : Type 0
ServiceGroup = Group Service

abbrev pub any_service_group : ℕ → ℕ → ServiceGroup
any_service_group a b = group any_group a "$any-svc-group" (item (any_service b) nil)

-- AppDefaultServiceGroup alone answers yes.
abbrev is_app_class : GroupClass → Bool
is_app_class app_default = true
is_app_class cls = false

abbrev pub is_app_services : ServiceGroup → Bool
is_app_services g = is_app_class (group_class g)

module _ (L : Buddy) where
  open L use {Bdd, bddtrue, bdd_and}

  abbrev protocol_bdd : ProtocolType → Mvalue → Bdd
  protocol_bdd any v = bddtrue
  protocol_bdd pt v = Value.make_bdd L v

  abbrev pub ports_bdd : Ports → Bdd
  ports_bdd p = if p.is_any_ports then bddtrue else Value.make_bdd L p.value

  unfoldable pub service_bdd : Service → Bdd
  service_bdd s =
      if s.is_any_service
      then bddtrue
      else bdd_and (protocol_bdd s.protocol.pt s.protocol.value) (ports_bdd s.ports)

  abbrev pub service_node : Node L Service
  service_node = record { address = λ s. s.address; name = λ s. s.name; make_bdd = service_bdd }
