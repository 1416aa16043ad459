-- ===== src/Network/Register/Tests.antt =====
-- An address, a service and an application that are registered in a new network.
use rules_analyzer.Base.{
  ◌≡◌, refl, true, [], ◌∷◌, some, none, Option, ok, err, if◌then◌else◌, Outcome,
}
use rules_analyzer.Strutil.Case.{iequal}
use rules_analyzer.Strutil.Numbers.{str2num}
use rules_analyzer.Split.{split, split_from}
use rules_analyzer.Bdd.TruthTable.{truth_table}
use rules_analyzer.Domain
use rules_analyzer.Address.{IpAddress, source, ip4_model}
use rules_analyzer.IpConvertor.Unary.{unary, ntop4}
use rules_analyzer.Ipv4Parser.{decode_ipv4_network_address}
use rules_analyzer.AddressParser.{create_address}
use rules_analyzer.Network.{Network, NetworkFault, new_network}
use rules_analyzer.Network.Register.{
  side_eq, address_slot, register, register_address, register_application,
}
use rules_analyzer.Network.Register.Slots.{Registered}
use rules_analyzer.Network.Register.Addresses.{register_address_again}

abbrev host : IpAddress
host = record {
  address = 17;
  name = "host";
  value = record {
    domain = Domain.src_address4;
    range = Domain.create_range Domain.src_address4 4 4;
  };
}

abbrev with_host : Network
unfolding new_network
with_host =
    let nw = new_network ip4_model true in
    record nw {
      addresses =
          λ s. if side_eq source s then ("host", host) ∷ nw.addresses source else nw.addresses s;
      next_address = 18;
    }

host_registered :
    register_address unary source "host" (ntop4 4) (new_network ip4_model true)
    ≡ ok (host, with_host)
unfolding register_address register create_address decode_ipv4_network_address new_network
host_registered = refl

register_address_again_example :
    Registered (address_slot source) "host" host (new_network ip4_model true) with_host
    × (register_address unary source "host" (ntop4 9) with_host ≡ ok (host, with_host))
register_address_again_example =
    register_address_again unary source "host" (ntop4 4) (ntop4 9) host (new_network ip4_model true)
      with_host host_registered

-- An application that names no service that can be read.
abbrev state_of : {A : Type 0} → Outcome NetworkFault (A × Network) → Option Network
state_of (ok (a, nw)) = some nw
state_of (err fault) = none

service_refused :
    state_of (register_application truth_table "web" ("gre" ∷ []) true (new_network ip4_model true))
    ≡ none
unfolding register_application register iequal str2num split split_from new_network
service_refused = refl
