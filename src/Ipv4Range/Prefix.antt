-- ===== src/Ipv4Range/Prefix.antt =====
-- The prefix length of a range with a power of two of addresses (src/model/ipv4range.cpp), and the
-- mask that it stands for (src/model/ipv4parser.cpp).
use native.Mathlib.Nat.{div-le_self, pow-zero, mul_assoc, pow-suc, one-le-pow, div-eq_of_lt-le}
use rules_analyzer.Base.{
  ℕ, zero, suc, ◌+◌, ◌-◌, ◌*◌, ◌/◌, ◌%◌, ◌^◌, ◌≤◌, ◌<◌, ◌≡◌, refl, ap, ◌∙◌, sym, true, false, arith,
  ltb,
}
use rules_analyzer.Ipv4Parser.{complement, prefix_mask}
use rules_analyzer.Ipv4Range.{bit_count}

pow_pos : (k : ℕ) → 0 < 2 ^ k
pow_pos k = one-le-pow k 2 (omega arith)

-- The bits of 2 ^ k - 1.
pub bit_count-pow : (rounds k : ℕ) → k ≤ rounds → bit_count rounds (2 ^ k - 1) ≡ k
unfolding bit_count
bit_count-pow zero zero h = refl
bit_count-pow zero (suc k) h = absurd (omega arith)
bit_count-pow (suc rounds) zero h = refl
bit_count-pow (suc rounds) (suc k) h =
    let half : (2 ^ suc k - 1) / 2 ≡ 2 ^ k - 1 = omega (arith, pow-suc 2 k, pow_pos k) in
    let odd : (2 ^ suc k - 1) % 2 ≡ 1 = omega (arith, pow-suc 2 k, pow_pos k) in
    let rest = bit_count-pow rounds k (omega arith) in
    ground (arith, ap (bit_count rounds) half, rest)

pow-split : (k j : ℕ) → 2 ^ (k + j) ≡ 2 ^ k * 2 ^ j
pow-split k zero =
    let same : k + 0 ≡ k = omega arith in ap (λ n. 2 ^ n) same ∙ omega (arith, pow-zero 2)
pow-split k (suc j) =
    let next : k + suc j ≡ suc (k + j) = omega arith in
    ap (λ n. 2 ^ n) next
    ∙ pow-suc 2 (k + j)
    ∙ ap (λ n. n * 2) (pow-split k j)
    ∙ mul_assoc (2 ^ k) (2 ^ j) 2
    ∙ ap (λ n. 2 ^ k * n) (sym (pow-suc 2 j))

-- All ones, shifted by what the prefix length leaves out.
shifted_ones : (k j : ℕ) → (2 ^ (k + j) - 1) / 2 ^ j ≡ 2 ^ k - 1
shifted_ones k j =
    let product = pow-split k j in
    let low : (2 ^ k - 1) * 2 ^ j ≤ 2 ^ (k + j) - 1 = grind (arith, pow_pos k, pow_pos j) in
    let high : 2 ^ (k + j) - 1 < (2 ^ k - 1 + 1) * 2 ^ j = grind (arith, pow_pos k, pow_pos j) in
    div-eq_of_lt-le (2 ^ j) low high

-- What a mask leaves out: the addresses behind the first one.
pub complement-prefix_mask : (w k : ℕ) → k ≤ w → complement w (prefix_mask w (w - k)) ≡ 2 ^ k - 1
complement-prefix_mask w zero h =
    let full : ltb (w - 0) w ≡ false = ground arith in rw full (omega (arith, pow-zero 2))
complement-prefix_mask w (suc k) h =
    let part : ltb (w - suc k) w ≡ true = ground arith in
    let whole : suc k + (w - suc k) ≡ w = omega arith in
    let shifted : (2 ^ w - 1) / 2 ^ (w - suc k) ≡ 2 ^ suc k - 1 =
      ap (λ n. (2 ^ n - 1) / 2 ^ (w - suc k)) (sym whole) ∙ shifted_ones (suc k) (w - suc k) in
    rw part (omega (arith, shifted, div-le_self (2 ^ w - 1) (2 ^ (w - suc k))))
