-- ===== src/AddressParser/Families.antt =====
-- is_ip_address and create (src/model/address.cpp) agree on what an address is.
use rules_analyzer.Base.{
  ℕ, ◌-◌, ◌^◌, ◌<◌, ◌≡◌, refl, ap, ◌↔◌, Bool, true, false, ◌||◌, arith, Outcome, ok, err, ◌>>=◌,
  String, some, ltb,
}
use rules_analyzer.Strutil.{Text}
use rules_analyzer.Range.{Range, ipv6_range}
use rules_analyzer.Ipv6Range.{new_ipv6_range}
use rules_analyzer.Address.{
  Side, IpAddressType, subnet, range, IpAddressModel, ip4_model, ip6_model, ip64_model, IpAddress,
}
use rules_analyzer.IpConvertor.{Inet}
use rules_analyzer.Ipv4Parser.{
  IpFault, AddressSpec, is_valid, decode_ipv4_network_address, is_ipv4_network_address,
}
use rules_analyzer.Ipv4Parser.Bounds.{IsSpec, decode_ipv4_network_address_bounds}
use rules_analyzer.Ipv6Parser.{decode_ipv6_network_address, is_ipv6_network_address}
use rules_analyzer.AddressParser.{
  AddressFault, lift, of_range, address4, address6, or_else, is_ip_address, create_address,
}

abbrev pub Succeeds : Outcome AddressFault IpAddress → Type 0
Succeeds r = (a : IpAddress) × (r ≡ ok a)

-- One parser, and a constructor that takes whatever it returns.
one_parser :
    (r : Outcome IpFault AddressSpec) (f : AddressSpec → Outcome AddressFault IpAddress)
    → ((spec : AddressSpec) → r ≡ ok spec → Succeeds (f spec))
    → (is_valid r ≡ true) ↔ Succeeds (lift r >>= f)
one_parser (ok spec) f made = (λ h. made spec refl, λ h. refl)
one_parser (err fault) f made = (λ h. absurd (cc), λ h. let e = h.1 in absurd (cc))

-- The second parser is asked when the first one refuses.
two_parsers :
    (r r' : Outcome IpFault AddressSpec) (f f' : AddressSpec → Outcome AddressFault IpAddress)
    → ((spec : AddressSpec) → r ≡ ok spec → Succeeds (f spec))
    → ((spec : AddressSpec) → r' ≡ ok spec → Succeeds (f' spec))
    → ((is_valid r || is_valid r') ≡ true) ↔ Succeeds (or_else r f (lift r' >>= f'))
two_parsers (ok spec) r' f f' made made' = (λ h. made spec refl, λ h. refl)
two_parsers (err fault) r' f f' made made' = one_parser r' f' made'

module _ (side : Side) (a : ℕ) (n : String) where
  made4 : (spec : AddressSpec) → Succeeds (address4 side a n spec)
  made4 (at, l, u) = (_, refl)

  made6 : (spec : AddressSpec) → Succeeds (address6 false side a n spec)
  made6 (at, l, u) = (_, refl)

  -- In the IPv4 format the bounds of an IPv4 address are accepted.
  made_mapped :
      (at : IpAddressType) (l u : ℕ)
      → l < 2 ^ 32
      → u < 2 ^ 32
      → Succeeds (address6 true side a n (at, l, u))
  made_mapped at l u h k =
      let low : ltb (2 ^ 32 - 1) l ≡ false = ground arith in
      let high : ltb (2 ^ 32 - 1) u ≡ false = ground arith in
      let held : Range = record { cls = ipv6_range true; nbits = 128; lbound = l; ubound = u } in
      let accepted : new_ipv6_range l u true ≡ some held = rw (low, high) refl in
      (_, ap (of_range side a n) accepted)

  made_mapped_spec : (spec : AddressSpec) → IsSpec 32 spec → Succeeds (address6 true side a n spec)
  made_mapped_spec (IpAddressType.address, l, u) (e, k) =
      made_mapped IpAddressType.address l u (omega arith) k
  made_mapped_spec (subnet, l, u) (h, k) = made_mapped subnet l u (omega arith) k
  made_mapped_spec (range, l, u) (h, k) = made_mapped range l u (omega arith) k

  module _ (I : Inet) (addr : Text) where
    -- Under every model of the network, strict or not, is_ip_address accepts the texts that create
    -- makes an address of, and no others.
    pub is_ip_address_iff :
        (ip_model : IpAddressModel) (strict : Bool)
        → (is_ip_address I addr ip_model strict ≡ true)
          ↔ Succeeds (create_address I side a n addr ip_model strict)
    unfolding is_ip_address create_address is_ipv4_network_address is_ipv6_network_address
    is_ip_address_iff ip4_model strict =
        one_parser (decode_ipv4_network_address I addr strict) _ (λ spec e. made4 spec)
    is_ip_address_iff ip6_model true =
        one_parser (decode_ipv6_network_address I addr true) _ (λ spec e. made6 spec)
    is_ip_address_iff ip6_model false =
        two_parsers (decode_ipv6_network_address I addr false)
          (decode_ipv4_network_address I addr false) _ _ (λ spec e. made6 spec)
          (λ spec e. made_mapped_spec spec (decode_ipv4_network_address_bounds I addr false spec e))
    is_ip_address_iff ip64_model strict =
        two_parsers (decode_ipv6_network_address I addr strict)
          (decode_ipv4_network_address I addr strict) _ _ (λ spec e. made6 spec)
          (λ spec e. made4 spec)
