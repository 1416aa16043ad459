-- ===== src/Ipv4Range/Printed.antt =====
-- What Ipv4Range::to_string (src/model/ipv4range.cpp) writes is read by decode_ipv4_network_address
-- (src/model/ipv4parser.cpp) as the range that it was.
use mathlib.Core.Bool.{false≢true}
use native.Mathlib.Nat.{pow-le-pow_right, mod-eq_of_lt}
use native.Mathlib.Decide.{dec_le}
use rules_analyzer.Base.{
  ℕ, ◌+◌, ◌-◌, ◌^◌, ◌≤◌, ◌<◌, ◌==◌, ◌≡◌, refl, ap, ◌∙◌, sym, ◌⊎◌, inl, inr, true, false, ◌∷◌, ◌++◌,
  any-append, some, arith, Bool-cases, ltb, leb, le→leb, length, pos, ok,
}
use rules_analyzer.Strutil.Numbers.Decimal.{str2num-number}
use rules_analyzer.Format.{Format}
use rules_analyzer.Split.Joined.{split-two}
use rules_analyzer.Split.Numbers.{number_part}
use rules_analyzer.Range.{Range, width, ipv4_range, is_singleton, is_power_of_2, difference}
use rules_analyzer.Range.PowerOf2.{is_power_of_2_iff, difference_lem}
use rules_analyzer.Address.{IpAddressType, IpAddress, subnet, range, at}
use rules_analyzer.IpConvertor.{Inet}
use rules_analyzer.Ipv4Parser.{
  slash, hyphen, contains, parts_of, prefix_mask, complement, mask_of, subnet_of, address_of,
  decode_mask, decode_subnet, decode_range, decode_ipv4_network_address,
}
use rules_analyzer.Ipv4Parser.Parts.{address_part, contains-middle}
use rules_analyzer.Ipv4Range.{bit_count, to_string}
use rules_analyzer.Ipv4Range.Prefix.{bit_count-pow, complement-prefix_mask}

singleton_bounds : (r : Range) → is_singleton r ≡ true → r.lbound ≡ r.ubound
unfolding is_singleton
singleton_bounds r h = ground arith

several_bounds : (r : Range) → is_singleton r ≡ false → r.lbound ≤ r.ubound → r.lbound < r.ubound
unfolding is_singleton
several_bounds r h k = ground arith

written :
    (r : Range) (k : ℕ)
    → difference r ≡ r.ubound - r.lbound
    → r.ubound - r.lbound + 1 ≡ 2 ^ k
    → difference r ≡ 2 ^ k - 1
written r k h e = omega arith

module _ (I : Inet) (F : Format) where
  open F use {decimal}

  -- A prefix length of k bits less than a word is read as its mask.
  read_mask : (k : ℕ) → k ≤ 32 → decode_mask I (decimal (32 - k)) ≡ some (prefix_mask 32 (32 - k))
  read_mask k h =
      let short : leb (length (decimal (32 - k))) 2 ≡ true =
        le→leb _ _ (F.length-decimal (32 - k) (omega arith)) in
      let value = F.value-decimal (32 - k) in
      rw short (
        ap (mask_of 32) (
          str2num-number (decimal (32 - k)) 32 (F.is_number-decimal (32 - k)) (omega arith)
            (omega arith)
          ∙ ap (λ n. some (pos n)) value))

  -- The subnet of the masks of a power of two addresses.
  subnet_exact :
      (w l u k : ℕ)
      → l < u
      → u < 2 ^ w
      → u - l + 1 ≡ 2 ^ k
      → k ≤ w
      → subnet_of w false (some (l, prefix_mask w (w - k))) ≡ ok (subnet, l, u)
  subnet_exact w l u k h b e m =
      let upper : l + complement w (prefix_mask w (w - k)) ≡ u =
        omega (arith, complement-prefix_mask w k m) in
      rw upper (rw (mod-eq_of_lt b) (ground arith))

  read_subnet :
      (l u k : ℕ)
      → l < u
      → u < 2 ^ 32
      → u - l + 1 ≡ 2 ^ k
      → k ≤ 32
      → decode_ipv4_network_address I (I.ntop4 l ++ slash ∷ decimal (32 - k)) false
        ≡ ok (subnet, l, u)
  unfolding decode_ipv4_network_address
  read_subnet l u k h b e m =
      let (part, alone) = address_part slash (I.ntop4 l) refl (I.is_address_text-ntop4 l) in
      let number =
        number_part slash (decimal (32 - k)) (omega arith) (F.is_number-decimal (32 - k)) in
      rw (contains-middle slash (I.ntop4 l) (decimal (32 - k))) (
        ap (λ parts. decode_subnet I (parts_of parts) false)
          (split-two slash (I.ntop4 l) (decimal (32 - k)) part number)
        ∙ rw (I.pton4-ntop4 l (omega arith), read_mask k m) (subnet_exact 32 l u k h b e m))

  read_range :
      (l u : ℕ)
      → l ≤ u
      → u < 2 ^ 32
      → decode_ipv4_network_address I (I.ntop4 l ++ hyphen ∷ I.ntop4 u) false ≡ ok (range, l, u)
  unfolding decode_ipv4_network_address
  read_range l u h b =
      let (part, alone) = address_part hyphen (I.ntop4 l) refl (I.is_address_text-ntop4 l) in
      let (part', alone') = address_part hyphen (I.ntop4 u) refl (I.is_address_text-ntop4 u) in
      let (low, no_slash) = address_part slash (I.ntop4 l) refl (I.is_address_text-ntop4 l) in
      let (high, no_slash') = address_part slash (I.ntop4 u) refl (I.is_address_text-ntop4 u) in
      let plain : contains slash (I.ntop4 l ++ hyphen ∷ I.ntop4 u) ≡ false =
        any-append (λ c. c == slash) (I.ntop4 l) (hyphen ∷ I.ntop4 u) ∙ ground arith in
      rw (plain, contains-middle hyphen (I.ntop4 l) (I.ntop4 u))
        (ap (λ parts. decode_range I (parts_of parts))
            (split-two hyphen (I.ntop4 l) (I.ntop4 u) part part')
          ∙ rw (I.pton4-ntop4 l (omega arith), I.pton4-ntop4 u b) (ground arith))

  read_alone :
      (l : ℕ)
      → l < 2 ^ 32
      → decode_ipv4_network_address I (I.ntop4 l) false ≡ ok (IpAddressType.address, l, l)
  unfolding decode_ipv4_network_address
  read_alone l b =
      let (low, no_slash) = address_part slash (I.ntop4 l) refl (I.is_address_text-ntop4 l) in
      let (part, no_hyphen) = address_part hyphen (I.ntop4 l) refl (I.is_address_text-ntop4 l) in
      rw (no_slash, no_hyphen) (ap address_of (I.pton4-ntop4 l b))

  few_bits : (n k : ℕ) → n < 2 ^ 32 → n + 1 ≡ 2 ^ k → k ≤ 32
  few_bits n k h e = elim (dec_le k 32) [
    | yes p ↦ p
    | no p ↦
        let more : 2 ^ 33 ≤ 2 ^ k = pow-le-pow_right (omega arith) {i = 33} {j = k} (omega arith) in
        absurd (omega arith)
  ]

  -- A range in order of IPv4 addresses whose size is a power of two or more than 1024 is written so
  -- that the parser, when it is not strict, reads its type and its bounds again.
  pub decode_ipv4_network_address-to_string :
      (a : IpAddress)
      → a.value.range.cls ≡ ipv4_range
      → a.value.range.lbound ≤ a.value.range.ubound
      → a.value.range.ubound < 2 ^ 32
      → (is_power_of_2 a.value.range ≡ true) ⊎ (a.value.range.lbound + 1024 ≤ a.value.range.ubound)
      → decode_ipv4_network_address I (to_string I F a.value.range) false
        ≡ ok (at a, a.value.range.lbound, a.value.range.ubound)
  unfolding to_string at
  decode_ipv4_network_address-to_string a c h b sized =
      let r = a.value.range in
      let fits : r.ubound < 2 ^ width r.cls = rw c b in
      let (distance, bound) = difference_lem r h fits in
      elim (Bool-cases (is_singleton r)) [
        | inl single ↦
            let same : r.lbound ≡ r.ubound = singleton_bounds r single in
            rw single (
              read_alone r.lbound (omega arith)
              ∙ ap (λ u. ok (IpAddressType.address, r.lbound, u)) same)
        | inr several ↦
            let lt : r.lbound < r.ubound = several_bounds r several h in
            elim (Bool-cases (is_power_of_2 r)) [
              | inl power ↦
                  let (k, e) = (is_power_of_2_iff r h fits).0 power in
                  let few : k ≤ 32 = few_bits (r.ubound - r.lbound) k (omega arith) e in
                  let bits : bit_count 32 (difference r) ≡ k =
                    ap (bit_count 32) (written r k distance e) ∙ bit_count-pow 32 k few in
                  rw (several, power) (rw bits (read_subnet r.lbound r.ubound k lt b e few))
              | inr other ↦ elim sized [
                | inl power ↦ absurd (false≢true (sym other ∙ power))
                | inr large ↦
                    let long : ltb (difference r) 1024 ≡ false = ground arith in
                    rw (several, other) (rw long (read_range r.lbound r.ubound h b))
              ]
            ]
      ]
