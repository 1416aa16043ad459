-- ===== src/AddressParser.antt =====
-- src/model/address.cpp: an address from text, by the model of the network, with the tests and the
-- type of a text.
mod Tests
pub mod Families
use rules_analyzer.Base.{
  ℕ, Bool, true, false, ◌||◌, if◌then◌else◌, Option, none, some, Outcome, ok, err, ◌>>=◌, String,
}
use rules_analyzer.Strutil.{Text}
use rules_analyzer.Range.{Range}
use rules_analyzer.Domain.{create_range, src_address4}
use rules_analyzer.Address.{
  Side, IpAddressType, IpAddressModel, ip4_model, ip6_model, ip64_model, IpAddress,
  address_of_range,
}
use rules_analyzer.IpConvertor.{Inet}
use rules_analyzer.Ipv4Parser.{
  IpFault, AddressSpec, decode_ipv4_network_address, is_ipv4_network_address,
}
use rules_analyzer.Ipv6Parser.{decode_ipv6_network_address, is_ipv6_network_address}
use rules_analyzer.Ipv6Range.{new_ipv6_range}

-- The exceptions: an IPAddressError, a range that its class refuses, or a width that no address has.
pub data AddressFault : Type 0 where
  ip_fault : IpFault → AddressFault
  no_range no_domain : AddressFault

abbrev pub lift : Outcome IpFault AddressSpec → Outcome AddressFault AddressSpec
lift (ok spec) = ok spec
lift (err fault) = err (ip_fault fault)

abbrev pub placed : Option IpAddress → Outcome AddressFault IpAddress
placed none = err no_domain
placed (some a) = ok a

abbrev pub of_range : Side → ℕ → String → Option Range → Outcome AddressFault IpAddress
of_range side a n none = err no_range
of_range side a n (some r) = placed (address_of_range side a n r)

-- The constructor of 32 bits.
abbrev pub address4 : Side → ℕ → String → AddressSpec → Outcome AddressFault IpAddress
address4 side a n (at, lower, upper) =
    of_range side a n (some (create_range src_address4 lower upper))

-- The constructor of 128 bits, with the IPv4 format or without.
abbrev pub address6 : Bool → Side → ℕ → String → AddressSpec → Outcome AddressFault IpAddress
address6 ipv4_format side a n (at, lower, upper) =
    of_range side a n (new_ipv6_range lower upper ipv4_format)

-- `catch (IPAddressError e) {}`, which goes on behind the first try. A range that the constructor
-- refuses is no IPAddressError.
abbrev pub or_else :
    Outcome IpFault AddressSpec
    → (AddressSpec → Outcome AddressFault IpAddress)
    → Outcome AddressFault IpAddress
    → Outcome AddressFault IpAddress
or_else (ok spec) found other = found spec
or_else (err fault) found other = other

module _ (I : Inet) where
  unfoldable pub is_ip_address : Text → IpAddressModel → Bool → Bool
  unfolding is_ipv4_network_address is_ipv6_network_address
  is_ip_address addr ip4_model strict = is_ipv4_network_address I addr strict
  is_ip_address addr ip6_model strict =
      let both = is_ipv6_network_address I addr strict || is_ipv4_network_address I addr strict in
      if strict then is_ipv6_network_address I addr strict else both
  is_ip_address addr ip64_model strict =
      is_ipv6_network_address I addr strict || is_ipv4_network_address I addr strict

  abbrev pub type_of : Outcome IpFault AddressSpec → Outcome IpFault IpAddressType
  type_of (ok (at, lower, upper)) = ok at
  type_of (err fault) = err fault

  abbrev pub type_of_either : Text → Bool → Outcome IpFault IpAddressType
  type_of_either addr strict =
      if is_ipv6_network_address I addr strict
      then type_of (decode_ipv6_network_address I addr strict)
      else type_of (decode_ipv4_network_address I addr strict)

  unfoldable pub get_ip_address_type : Text → IpAddressModel → Bool → Outcome IpFault IpAddressType
  unfolding is_ipv6_network_address decode_ipv4_network_address decode_ipv6_network_address
  get_ip_address_type addr ip4_model strict = type_of (decode_ipv4_network_address I addr strict)
  get_ip_address_type addr ip6_model strict =
      if strict
      then type_of (decode_ipv6_network_address I addr strict)
      else type_of_either addr strict
  get_ip_address_type addr ip64_model strict = type_of_either addr strict

  module _ (side : Side) (a : ℕ) (n : String) where
    -- `SrcAddress::create` and `DstAddress::create`, at an address.
    unfoldable pub create_address : Text → IpAddressModel → Bool → Outcome AddressFault IpAddress
    unfolding decode_ipv4_network_address decode_ipv6_network_address
    create_address addr ip4_model strict =
        lift (decode_ipv4_network_address I addr strict) >>= address4 side a n
    create_address addr ip6_model strict =
        if strict
        then lift (decode_ipv6_network_address I addr strict) >>= address6 false side a n
        else or_else (decode_ipv6_network_address I addr strict) (address6 false side a n)
            (lift (decode_ipv4_network_address I addr strict) >>= address6 true side a n)
    create_address addr ip64_model strict =
        or_else (decode_ipv6_network_address I addr strict) (address6 false side a n)
          (lift (decode_ipv4_network_address I addr strict) >>= address4 side a n)
