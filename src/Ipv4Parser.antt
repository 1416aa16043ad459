-- ===== src/Ipv4Parser.antt =====
-- src/model/ipv4parser.cpp: an IPv4 address, subnet or range in text. The functions of the two parsers
-- that do not depend on the width of an address stand here too (src/model/ipv6parser.cpp).
pub mod Bounds
pub mod Parts
use Prim.Native.Nat.{bit_and}
use rules_analyzer.Base.{
  ℕ, ◌+◌, ◌-◌, ◌/◌, ◌%◌, ◌^◌, ◌==◌, Bool, true, false, not, ◌&&◌, if◌then◌else◌, leb, ltb, List, [],
  ◌∷◌, any, length, Option, none, some, ℤ, pos, negsuc, Outcome, ok, err, ◌>>=◌,
}
use rules_analyzer.Strutil.{Text}
use rules_analyzer.Strutil.Numbers.{str2num}
use rules_analyzer.Split.{split}
use rules_analyzer.Address.{IpAddressType, address, subnet, range}
use rules_analyzer.IpConvertor.{Inet, decode_ipv4_address}

-- IPAddressError with its reasons, and the read of a part that is not there, which is undefined.
pub data IpFault : Type 0 where
  multiple_slashes multiple_hyphens invalid_format host_bits_set invalid_address : IpFault
  invalid_range no_part : IpFault

abbrev pub slash : ℕ
slash = 47

abbrev pub hyphen : ℕ
hyphen = 45

-- `addr.find(c) != npos`.
abbrev pub contains : ℕ → Text → Bool
contains c addr = any (λ d. d == c) addr

-- The parts of a split, which always ends within its fuel.
abbrev pub parts_of : Option (List Text) → List Text
parts_of none = []
parts_of (some parts) = parts

-- `~value` in a word of the given width.
abbrev pub complement : ℕ → ℕ → ℕ
complement w value = 2 ^ w - 1 - value

-- The mask of a prefix length.
abbrev pub prefix_mask : ℕ → ℕ → ℕ
prefix_mask w nbits =
    let all_ones = 2 ^ w - 1 in
    if ltb nbits w then complement w (all_ones / 2 ^ nbits) else all_ones

abbrev pub mask_of : ℕ → Option ℤ → Option ℕ
mask_of w (some (pos nbits)) = some (prefix_mask w nbits)
mask_of w (some (negsuc n)) = none
mask_of w none = none

abbrev pub AddressSpec : Type 0
AddressSpec = IpAddressType × ℕ × ℕ

-- `std::make_tuple` behind the tests of a subnet, of a network and a mask.
abbrev pub subnet_bounds : ℕ → ℕ → ℕ → Outcome IpFault AddressSpec
subnet_bounds w address_lower address_upper =
    if ltb address_upper address_lower
    then err invalid_address
    else if ltb address_lower address_upper
    then ok (subnet, address_lower, address_upper)
    else ok (IpAddressType.address, address_lower, address_upper)

abbrev pub subnet_of : ℕ → Bool → Option (ℕ × ℕ) → Outcome IpFault AddressSpec
subnet_of w strict none = err invalid_format
subnet_of w strict (some (network, mask)) =
    if strict && not (bit_and network mask == network)
    then err host_bits_set
    else subnet_bounds w network ((network + complement w mask) % 2 ^ w)

abbrev pub range_of : Option (ℕ × ℕ) → Outcome IpFault AddressSpec
range_of none = err invalid_format
range_of (some (address_lower, address_upper)) =
    if ltb address_upper address_lower
    then err invalid_range
    else ok (range, address_lower, address_upper)

abbrev pub address_of : Option ℕ → Outcome IpFault AddressSpec
address_of none = err invalid_format
address_of (some address_lower) = ok (IpAddressType.address, address_lower, address_lower)

abbrev pub pair_of : Option ℕ → Option ℕ → Option (ℕ × ℕ)
pair_of none second = none
pair_of (some first) none = none
pair_of (some first) (some second) = some (first, second)

-- Whether no exception is thrown.
abbrev pub is_valid : Outcome IpFault AddressSpec → Bool
is_valid (ok spec) = true
is_valid (err fault) = false

module _ (I : Inet) where
  -- The mask behind the slash: a prefix length, or an address of more than two characters.
  abbrev pub decode_mask : Text → Option ℕ
  decode_mask text =
      if leb (length text) 2
      then mask_of 32 (str2num text (pos 0) (pos 32))
      else decode_ipv4_address I text

  -- `decode_network_address`. Without two parts the mask is INT32_MAX; the only call has two.
  abbrev pub decode_network_address : List Text → Outcome IpFault (Option (ℕ × ℕ))
  decode_network_address [] = err no_part
  decode_network_address (a ∷ []) = ok (pair_of (decode_ipv4_address I a) (some (2 ^ 31 - 1)))
  decode_network_address (a ∷ b ∷ []) = ok (pair_of (decode_ipv4_address I a) (decode_mask b))
  decode_network_address (a ∷ b ∷ c ∷ parts) =
      ok (pair_of (decode_ipv4_address I a) (some (2 ^ 31 - 1)))

  -- `decode_network_range`. Without two parts the upper bound is the lower one.
  abbrev pub decode_network_range : List Text → Outcome IpFault (Option (ℕ × ℕ))
  decode_network_range [] = err no_part
  decode_network_range (a ∷ []) = ok (pair_of (decode_ipv4_address I a) (decode_ipv4_address I a))
  decode_network_range (a ∷ b ∷ []) =
      ok (pair_of (decode_ipv4_address I a) (decode_ipv4_address I b))
  decode_network_range (a ∷ b ∷ c ∷ parts) =
      ok (pair_of (decode_ipv4_address I a) (decode_ipv4_address I a))

  abbrev pub decode_subnet : List Text → Bool → Outcome IpFault AddressSpec
  decode_subnet parts strict =
      if not (length parts == 2)
      then err multiple_slashes
      else decode_network_address parts >>= subnet_of 32 strict

  abbrev pub decode_range : List Text → Outcome IpFault AddressSpec
  decode_range parts =
      if not (length parts == 2)
      then err multiple_hyphens
      else decode_network_range parts >>= range_of

  unfoldable pub decode_ipv4_network_address : Text → Bool → Outcome IpFault AddressSpec
  decode_ipv4_network_address addr strict =
      if contains slash addr
      then decode_subnet (parts_of (split addr slash)) strict
      else if contains hyphen addr
      then decode_range (parts_of (split addr hyphen))
      else address_of (decode_ipv4_address I addr)

  unfoldable pub is_ipv4_network_address : Text → Bool → Bool
  unfolding decode_ipv4_network_address
  is_ipv4_network_address addr strict = is_valid (decode_ipv4_network_address addr strict)
