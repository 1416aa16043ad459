-- ===== src/Range/Tests.antt =====
-- The test for a power of two on a subnet and on the full range of 32 bits.
use rules_analyzer.Base.{ℕ, ◌+◌, ◌-◌, ◌^◌, ◌≡◌, refl, ◌↔◌, true, false, arith}
use rules_analyzer.Range.{Range, ipv4_range, is_power_of_2, difference}
use rules_analyzer.Range.PowerOf2.{is_power_of_2_iff}

abbrev subnet : Range
subnet = record { cls = ipv4_range; nbits = 32; lbound = 0x0a000000; ubound = 0x0a0000ff }

abbrev full_range : Range
full_range = record { cls = ipv4_range; nbits = 32; lbound = 0; ubound = 0xffffffff }

abbrev odd_range : Range
odd_range = record { cls = ipv4_range; nbits = 32; lbound = 1; ubound = 3 }

subnet_is_power : is_power_of_2 subnet ≡ true
unfolding is_power_of_2 difference
subnet_is_power = refl

full_is_power : is_power_of_2 full_range ≡ true
unfolding is_power_of_2 difference
full_is_power = refl

odd_is_no_power : is_power_of_2 odd_range ≡ false
unfolding is_power_of_2 difference
odd_is_no_power = refl

is_power_of_2_iff_example :
    (is_power_of_2 subnet ≡ true) ↔ ((k : ℕ) × (subnet.ubound - subnet.lbound + 1 ≡ 2 ^ k))
is_power_of_2_iff_example = is_power_of_2_iff subnet (omega arith) (omega arith)
