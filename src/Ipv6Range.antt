-- ===== src/Ipv6Range.antt =====
-- src/model/ipv6range.cpp: a range of IPv6 addresses in text, or one of IPv4 addresses that is held in
-- 128 bits.
use rules_analyzer.Base.{
  ◌-◌, ◌%◌, ◌^◌, Bool, true, false, ◌&&◌, ◌||◌, if◌then◌else◌, ltb, ℕ, ◌∷◌, ◌++◌, Option, none,
  some,
}
use rules_analyzer.Strutil.{Text}
use rules_analyzer.Format.{Format}
use rules_analyzer.Range.{Range, ipv4_range, ipv6_range, is_singleton, is_power_of_2, difference}
use rules_analyzer.IpConvertor.{Inet, encode_ipv6_address}
use rules_analyzer.Ipv4Parser.{slash, hyphen}
use rules_analyzer.Ipv4Range.{plus, bit_count}
use rules_analyzer.Ipv4Range

-- The constructor, with `none` for its exception: the IPv4 format needs bounds of 32 bits.
abbrev pub new_ipv6_range : ℕ → ℕ → Bool → Option Range
new_ipv6_range lbound ubound ipv4_format =
    if ipv4_format && (ltb (2 ^ 32 - 1) lbound || ltb (2 ^ 32 - 1) ubound)
    then none
    else some
        (record { cls = ipv6_range ipv4_format; nbits = 128; lbound = lbound; ubound = ubound })

-- The range of the low 32 bits.
abbrev pub as_ipv4_range : Range → Range
as_ipv4_range r = record {
  cls = ipv4_range;
  nbits = 32;
  lbound = r.lbound % 2 ^ 32;
  ubound = r.ubound % 2 ^ 32;
}

module _ (I : Inet) (F : Format) where
  open F use {decimal}

  -- The IPv6 format.
  abbrev pub ipv6_text : Range → Text
  ipv6_text r =
      let low_address = encode_ipv6_address I r.lbound in
      if is_singleton r
      then low_address
      else if is_power_of_2 r
      then low_address ++ slash ∷ decimal (128 - bit_count 128 (difference r))
      else if ltb (difference r) 1024
      then low_address ++ plus ∷ decimal (difference r)
      else low_address ++ hyphen ∷ encode_ipv6_address I r.ubound

  -- `to_string`.
  unfoldable pub to_string : Bool → Range → Text
  to_string true r = Ipv4Range.to_string I F (as_ipv4_range r)
  to_string false r = ipv6_text r
