-- ===== src/Ipv6Parser/Bounds.antt =====
-- The bounds that decode_ipv6_network_address (src/model/ipv6parser.cpp) returns.
use rules_analyzer.Base.{◌^◌, ◌≡◌, Bool, List, [], ◌∷◌, arith, ok, Bool-cases, inl, inr}
use rules_analyzer.Strutil.{Text}
use rules_analyzer.Split.{split}
use rules_analyzer.IpConvertor.{Inet, decode_ipv6_address}
use rules_analyzer.IpConvertor.RoundTrip.{decode_ipv6_address-lt}
use rules_analyzer.Ipv4Parser.{AddressSpec, contains, slash, hyphen, parts_of}
use rules_analyzer.Ipv4Parser.Bounds.{
  IsSpec, IsRead, subnet_of_lem, range_of_lem, address_of_lem, pair_small,
}
use rules_analyzer.Ipv6Parser.{decode_subnet, decode_range, decode_ipv6_network_address}

module _ (I : Inet) where
  subnet-IsRead : (parts : List Text) (strict : Bool) → IsRead I 128 (decode_subnet I parts strict)
  subnet-IsRead [] strict spec h = absurd (cc)
  subnet-IsRead (a ∷ []) strict spec h = absurd (cc)
  subnet-IsRead (a ∷ b ∷ []) strict spec h = subnet_of_lem 128 strict _ spec h
  subnet-IsRead (a ∷ b ∷ c ∷ parts) strict spec h = ground arith

  range-IsRead : (parts : List Text) → IsRead I 128 (decode_range I parts)
  range-IsRead [] spec h = absurd (cc)
  range-IsRead (a ∷ []) spec h = absurd (cc)
  range-IsRead (a ∷ b ∷ []) spec h =
      range_of_lem 128 _ spec
        (λ l u.
          pair_small (2 ^ 128) (decode_ipv6_address I a) (decode_ipv6_address I b) l u
            (decode_ipv6_address-lt I b))
        h
  range-IsRead (a ∷ b ∷ c ∷ parts) spec h = ground arith

  -- A text that is accepted as an IPv6 address gives bounds that are in order and fit 128 bits: equal
  -- for an address, and different for a subnet.
  pub decode_ipv6_network_address_bounds :
      (addr : Text) (strict : Bool) (spec : AddressSpec)
      → decode_ipv6_network_address I addr strict ≡ ok spec
      → IsSpec 128 spec
  unfolding decode_ipv6_network_address
  decode_ipv6_network_address_bounds addr strict spec h = elim (Bool-cases (contains slash addr)) [
    | inl with_slash ↦ subnet-IsRead (parts_of (split addr slash)) strict spec (rw with_slash at h)
    | inr plain ↦ elim (Bool-cases (contains hyphen addr)) [
      | inl with_hyphen ↦
          range-IsRead (parts_of (split addr hyphen)) spec (rw with_hyphen at (rw plain at h))
      | inr alone ↦
          address_of_lem 128 (decode_ipv6_address I addr) spec (decode_ipv6_address-lt I addr)
            (rw alone at (rw plain at h))
    ]
  ]
