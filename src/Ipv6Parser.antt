-- ===== src/Ipv6Parser.antt =====
-- src/model/ipv6parser.cpp: an IPv6 address, subnet or range in text.
pub mod Bounds
use rules_analyzer.Base.{
  ◌-◌, ◌^◌, ◌==◌, Bool, true, false, not, if◌then◌else◌, ℕ, List, [], ◌∷◌, length, Option, some,
  pos, Outcome, ok, err, ◌>>=◌,
}
use rules_analyzer.Strutil.{Text}
use rules_analyzer.Strutil.Numbers.{str2num}
use rules_analyzer.Split.{split}
use rules_analyzer.IpConvertor.{Inet, decode_ipv6_address}
use rules_analyzer.Ipv4Parser.{
  IpFault, multiple_slashes, multiple_hyphens, no_part, AddressSpec, slash, hyphen, contains,
  parts_of, mask_of, subnet_of, range_of, address_of, pair_of, is_valid,
}

module _ (I : Inet) where
  -- `decode_network_address`. Without two parts the mask is all ones; the only call has two.
  abbrev pub decode_network_address : List Text → Outcome IpFault (Option (ℕ × ℕ))
  decode_network_address [] = err no_part
  decode_network_address (a ∷ []) = ok (pair_of (decode_ipv6_address I a) (some (2 ^ 128 - 1)))
  decode_network_address (a ∷ b ∷ []) =
      ok (pair_of (decode_ipv6_address I a) (mask_of 128 (str2num b (pos 0) (pos 128))))
  decode_network_address (a ∷ b ∷ c ∷ parts) =
      ok (pair_of (decode_ipv6_address I a) (some (2 ^ 128 - 1)))

  -- `decode_network_range`. Without two parts the upper bound is the lower one.
  abbrev pub decode_network_range : List Text → Outcome IpFault (Option (ℕ × ℕ))
  decode_network_range [] = err no_part
  decode_network_range (a ∷ []) = ok (pair_of (decode_ipv6_address I a) (decode_ipv6_address I a))
  decode_network_range (a ∷ b ∷ []) =
      ok (pair_of (decode_ipv6_address I a) (decode_ipv6_address I b))
  decode_network_range (a ∷ b ∷ c ∷ parts) =
      ok (pair_of (decode_ipv6_address I a) (decode_ipv6_address I a))

  abbrev pub decode_subnet : List Text → Bool → Outcome IpFault AddressSpec
  decode_subnet parts strict =
      if not (length parts == 2)
      then err multiple_slashes
      else decode_network_address parts >>= subnet_of 128 strict

  abbrev pub decode_range : List Text → Outcome IpFault AddressSpec
  decode_range parts =
      if not (length parts == 2)
      then err multiple_hyphens
      else decode_network_range parts >>= range_of

  unfoldable pub decode_ipv6_network_address : Text → Bool → Outcome IpFault AddressSpec
  decode_ipv6_network_address addr strict =
      if contains slash addr
      then decode_subnet (parts_of (split addr slash)) strict
      else if contains hyphen addr
      then decode_range (parts_of (split addr hyphen))
      else address_of (decode_ipv6_address I addr)

  unfoldable pub is_ipv6_network_address : Text → Bool → Bool
  unfolding decode_ipv6_network_address
  is_ipv6_network_address addr strict = is_valid (decode_ipv6_network_address addr strict)
