-- ===== src/Ipv4Range/Tests.antt =====
-- Ranges of small addresses, written by the unary conversions.
use rules_analyzer.Base.{◌≡◌, refl, true, false, inl, arith, ok, err, [], ◌∷◌, ◌++◌}
use rules_analyzer.Strutil.{Text}
use rules_analyzer.Strutil.Numbers.{str2num}
use rules_analyzer.Format.Digits.{digits_format, decimal}
use rules_analyzer.Split.{split, split_from}
use rules_analyzer.Range.{ipv4_range, is_singleton, is_power_of_2, difference}
use rules_analyzer.Domain.{src_address4}
use rules_analyzer.Address.{IpAddress, subnet, at}
use rules_analyzer.IpConvertor.Unary.{unary, ntop4}
use rules_analyzer.Ipv4Parser.{
  host_bits_set, invalid_range, invalid_address, slash, hyphen, decode_ipv4_network_address,
}
use rules_analyzer.Ipv4Parser.Bounds.{IsSpec, decode_ipv4_network_address_bounds}
use rules_analyzer.Ipv4Range.{to_string, bit_count}
use rules_analyzer.Ipv4Range.Printed.{decode_ipv4_network_address-to_string}

abbrev four_addresses : IpAddress
four_addresses = record {
  address = 1;
  name = "net";
  value = record {
    domain = src_address4;
    range = record { cls = ipv4_range; nbits = 32; lbound = 4; ubound = 7 };
  };
}

unfoldable reading : Text
unfolding decode_ipv4_network_address split split_from str2num
reading = []

subnet_written :
    to_string unary digits_format four_addresses.value.range ≡ ntop4 4 ++ slash ∷ 51 ∷ 48 ∷ []
unfolding to_string is_singleton is_power_of_2 difference bit_count decimal
subnet_written = refl

subnet_read :
    decode_ipv4_network_address unary (ntop4 4 ++ slash ∷ 51 ∷ 48 ∷ []) true ≡ ok (subnet, 4, 7)
unfolding reading
subnet_read = refl

-- Not strict, the addresses of the subnet are counted from the address with host bits.
host_bits :
    decode_ipv4_network_address unary (ntop4 5 ++ slash ∷ 51 ∷ 48 ∷ []) false ≡ ok (subnet, 5, 8)
unfolding reading
host_bits = refl

host_bits_refused :
    decode_ipv4_network_address unary (ntop4 5 ++ slash ∷ 51 ∷ 48 ∷ []) true ≡ err host_bits_set
unfolding reading
host_bits_refused = refl

range_refused :
    decode_ipv4_network_address unary (ntop4 5 ++ hyphen ∷ ntop4 4) true ≡ err invalid_range
unfolding reading
range_refused = refl

-- Not strict, a whole word behind an address wraps around.
wrapped : decode_ipv4_network_address unary (ntop4 1 ++ slash ∷ 48 ∷ []) false ≡ err invalid_address
unfolding reading
wrapped = refl

decode_ipv4_network_address_bounds_example : IsSpec 32 (subnet, 4, 7)
decode_ipv4_network_address_bounds_example =
    decode_ipv4_network_address_bounds unary (ntop4 4 ++ slash ∷ 51 ∷ 48 ∷ []) true (subnet, 4, 7)
      subnet_read

four_power : is_power_of_2 four_addresses.value.range ≡ true
unfolding is_power_of_2 difference
four_power = refl

decode_ipv4_network_address-to_string_example :
    decode_ipv4_network_address unary
      (to_string unary digits_format four_addresses.value.range)
      false
    ≡ ok (at four_addresses, 4, 7)
decode_ipv4_network_address-to_string_example =
    decode_ipv4_network_address-to_string unary digits_format four_addresses refl (omega arith)
      (omega arith) (inl four_power)
