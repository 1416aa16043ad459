-- ===== src/Address.antt =====
-- src/model/ipaddress.h, src/model/address.h and src/model/address.cpp: IP addresses as ranges, and
-- the groups of any address.
use rules_analyzer.Base.{ℕ, ◌==◌, if◌then◌else◌, String, Option, none, some}
use rules_analyzer.Bdd.{Buddy}
use rules_analyzer.Range.{Range, is_singleton, is_power_of_2}
use rules_analyzer.Domain.{
  DomainType, src_address4, src_address6, dst_address4, dst_address6, create_full_range,
}
use rules_analyzer.Mvalue.{Mvalue}
use rules_analyzer.Mvalue as Value
use rules_analyzer.Group.{Node, Group, group, item, nil, any_group}

pub data IpAddressType : Type 0 where
  address subnet range : IpAddressType

pub data IpAddressModel : Type 0 where
  ip4_model ip6_model ip64_model : IpAddressModel

-- SrcAddress or DstAddress.
pub data Side : Type 0 where
  source destination : Side

pub record IpAddress : Type 0 where
  pub address : ℕ
  pub name : String
  pub value : Mvalue

unfoldable pub at : IpAddress → IpAddressType
at a =
    if is_singleton a.value.range
    then IpAddressType.address
    else if is_power_of_2 a.value.range
    then subnet
    else range

-- `none` stands for the exception on any other number of bits.
abbrev pub version : IpAddress → Option ℕ
version a =
    if a.value.range.nbits == 32
    then some 4
    else if a.value.range.nbits == 128
    then some 6
    else none

abbrev domain4 : Side → DomainType
domain4 source = src_address4
domain4 destination = dst_address4

abbrev domain6 : Side → DomainType
domain6 source = src_address6
domain6 destination = dst_address6

-- `SrcAddress::dt` and `DstAddress::dt`, with `none` for the exception.
abbrev pub address_domain : Side → Range → Option DomainType
address_domain side r =
    if r.nbits == 32
    then some (domain4 side)
    else if r.nbits == 128
    then some (domain6 side)
    else none

abbrev pub address_of_range : Side → ℕ → String → Range → Option IpAddress
address_of_range side a n r = elim (address_domain side r) [
  | none ↦ none
  | some dt ↦ some (record { address = a; name = n; value = record { domain = dt; range = r } })
]

-- The address of the other side with the same range, at a new place.
abbrev pub convert_address : Side → ℕ → IpAddress → Option IpAddress
convert_address side a x = address_of_range side a x.name x.value.range

abbrev any_name : IpAddressModel → String → String
any_name ip64_model n = n
any_name ip_model n = "any"

-- `any4` and `any6`: the full ranges have the right number of bits.
abbrev pub any4 : Side → ℕ → IpAddressModel → IpAddress
any4 side a ip_model = record {
  address = a;
  name = any_name ip_model "any4";
  value = record { domain = domain4 side; range = create_full_range (domain4 side) };
}

abbrev pub any6 : Side → ℕ → IpAddressModel → IpAddress
any6 side a ip_model = record {
  address = a;
  name = any_name ip_model "any6";
  value = record { domain = domain6 side; range = create_full_range (domain6 side) };
}

abbrev pub AddressGroup : Type 0
AddressGroup = Group IpAddress

abbrev pub any_address_group : Side → IpAddressModel → ℕ → ℕ → ℕ → AddressGroup
any_address_group source ip4_model a b c =
    group any_group a "$src-any4-group" (item (any4 source b ip4_model) nil)
any_address_group source ip6_model a b c =
    group any_group a "$src-any6-group" (item (any6 source b ip6_model) nil)
any_address_group source ip64_model a b c =
    group any_group a "$src-any64-group"
      (item (any4 source b ip64_model) (item (any6 source c ip64_model) nil))
any_address_group destination ip4_model a b c =
    group any_group a "$dst-any4-group" (item (any4 destination b ip4_model) nil)
any_address_group destination ip6_model a b c =
    group any_group a "$dst-any6-group" (item (any6 destination b ip6_model) nil)
any_address_group destination ip64_model a b c =
    group any_group a "$dst-any64-group"
      (item (any4 destination b ip64_model) (item (any6 destination c ip64_model) nil))

module _ (L : Buddy) where
  abbrev pub address_node : Node L IpAddress
  address_node = record {
    address = λ a. a.address;
    name = λ a. a.name;
    make_bdd = λ a. Value.make_bdd L a.value;
  }
