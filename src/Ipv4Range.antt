-- ===== src/Ipv4Range.antt =====
-- src/model/ipv4range.cpp: a range of IPv4 addresses in text.
pub mod Prefix
pub mod Printed
mod Tests
use rules_analyzer.Base.{ℕ, zero, suc, ◌+◌, ◌-◌, ◌/◌, ◌%◌, ◌==◌, if◌then◌else◌, ltb, [], ◌∷◌, ◌++◌}
use rules_analyzer.Strutil.{Text}
use rules_analyzer.Format.{Format}
use rules_analyzer.Range.{Range, is_singleton, is_power_of_2, difference}
use rules_analyzer.IpConvertor.{Inet, encode_ipv4_address}
use rules_analyzer.Ipv4Parser.{slash, hyphen}

abbrev pub plus : ℕ
plus = 43

-- The loop of `bit_count`, which halves the value; as many rounds as the word has bits are enough.
unfoldable pub bit_count : ℕ → ℕ → ℕ
bit_count zero value = 0
bit_count (suc rounds) value =
    let rest = bit_count rounds (value / 2) in if value == 0 then 0 else value % 2 + rest

module _ (I : Inet) (F : Format) where
  open F use {decimal}

  -- `to_string`.
  unfoldable pub to_string : Range → Text
  to_string r =
      let low_address = encode_ipv4_address I r.lbound in
      if is_singleton r
      then low_address
      else if is_power_of_2 r
      then low_address ++ slash ∷ decimal (32 - bit_count 32 (difference r))
      else if ltb (difference r) 1024
      then low_address ++ plus ∷ decimal (difference r)
      else low_address ++ hyphen ∷ encode_ipv4_address I r.ubound
