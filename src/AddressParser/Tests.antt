-- ===== src/AddressParser/Tests.antt =====
-- Addresses of the two families, read by the unary conversions.
use rules_analyzer.Base.{◌≡◌, refl, true, false, ok, ◌↔◌, ◌∷◌, ◌++◌, []}
use rules_analyzer.Strutil.{Text}
use rules_analyzer.Strutil.Numbers.{str2num}
use rules_analyzer.Split.{split, split_from}
use rules_analyzer.Address.{destination, ip6_model, ip64_model, range}
use rules_analyzer.IpConvertor.{decode_ipv6_address}
use rules_analyzer.IpConvertor.Unary.{unary, ntop4, ntop6}
use rules_analyzer.Ipv4Parser.{hyphen, decode_ipv4_network_address}
use rules_analyzer.Ipv6Parser.{decode_ipv6_network_address}
use rules_analyzer.AddressParser.{is_ip_address, create_address, get_ip_address_type}
use rules_analyzer.AddressParser.Families.{Succeeds, is_ip_address_iff}

unfoldable parsers : Text
unfolding is_ip_address get_ip_address_type decode_ipv4_network_address decode_ipv6_network_address
    decode_ipv6_address split split_from str2num
parsers = []

abbrev low_address : Text
low_address = ntop6 (0, 0, 0, 2)

abbrev high_address : Text
high_address = ntop6 (0, 0, 0, 5)

-- A range, and an IPv4 address under the model of IPv6: accepted only where the parser is not strict.
range_text : is_ip_address unary (low_address ++ hyphen ∷ high_address) ip6_model true ≡ true
unfolding parsers
range_text = refl

ipv4_refused : is_ip_address unary (ntop4 4) ip6_model true ≡ false
unfolding parsers
ipv4_refused = refl

ipv4_mapped : is_ip_address unary (ntop4 4) ip6_model false ≡ true
unfolding parsers
ipv4_mapped = refl

range_type :
    get_ip_address_type unary (low_address ++ hyphen ∷ high_address) ip64_model true ≡ ok range
unfolding parsers
range_type = refl

range_read :
    decode_ipv6_network_address unary (low_address ++ hyphen ∷ high_address) true ≡ ok (range, 2, 5)
unfolding parsers
range_read = refl

is_ip_address_iff_example :
    (is_ip_address unary (ntop4 4) ip6_model false ≡ true)
    ↔ Succeeds (create_address unary destination 9 "lan" (ntop4 4) ip6_model false)
is_ip_address_iff_example = is_ip_address_iff destination 9 "lan" unary (ntop4 4) ip6_model false
