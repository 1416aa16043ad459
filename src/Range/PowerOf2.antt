-- ===== src/Range/PowerOf2.antt =====
-- The test of RangeImpl::is_power_of_2, which avoids the addition that could overflow.
use Prim.Native.Nat.{bit_and, bit_and-bitwise, digits, min}
use rules_analyzer.Base.{
  ℕ, zero, suc, ◌+◌, ◌-◌, ◌*◌, ◌/◌, ◌%◌, ◌^◌, ◌≤◌, ◌<◌, ◌≡◌, refl, ap, ◌↔◌, ◌≢◌, true, arith,
}
use mathlib.Core.Path.{ap₂}
use native.Mathlib.Decide.{ℕ_discrete}
use native.Mathlib.Nat.{pow-suc, mod-eq_of_lt}
use rules_analyzer.Range.{
  Range, RangeClass, range16, width, difference, is_power_of_2, power_of_2_test,
}

-- `bit_and` is the recursion on binary digits that stands for it, with any fuel from `a` on.
from_digits : (n f a b : ℕ) → a ≤ n → a ≤ f → bit_and a b ≡ digits (λ y. 0) min f a b
from_digits n zero zero b h k = bit_and-bitwise 0 b
from_digits n (suc f) zero b h k = bit_and-bitwise 0 b
from_digits n zero (suc a) b h k = absurd (omega arith)
from_digits zero (suc f) (suc a) b h k = absurd (omega arith)
from_digits (suc n) (suc f) (suc a) b h k =
    let given = from_digits n f (suc a / 2) (b / 2) (omega arith) (omega arith) in
    let least = from_digits n a (suc a / 2) (b / 2) (omega arith) (omega arith) in
    omega (arith, bit_and-bitwise (suc a) b, given, least)

-- The last digit of a conjunction, and the rest.
bit_and_last : (a b : ℕ) → bit_and a b ≡ min (a % 2) (b % 2) + 2 * bit_and (a / 2) (b / 2)
bit_and_last zero b = omega (arith, bit_and-bitwise 0 b, bit_and-bitwise 0 (b / 2))
bit_and_last (suc a) b =
    let rest = from_digits (suc a / 2) a (suc a / 2) (b / 2) (omega arith) (omega arith) in
    omega (arith, bit_and-bitwise (suc a) b, rest)

conjoined_once : (bound a : ℕ) → a ≤ bound → bit_and a a ≡ a
conjoined_once bound zero h = refl
conjoined_once zero (suc a) h = absurd (omega arith)
conjoined_once (suc bound) (suc a) h =
    omega (arith, bit_and_last (suc a) (suc a), conjoined_once bound (suc a / 2) (omega arith))

-- A number shares no bit with its predecessor only if it is a power of two.
shares_no_bit : (n d : ℕ) → d < n → bit_and (d + 1) d ≡ 0 → (k : ℕ) × (d + 1 ≡ 2 ^ k)
shares_no_bit zero d h e = absurd (omega arith)
shares_no_bit (suc n) zero h e = (0, refl)
shares_no_bit (suc n) (suc d) h e = elim (ℕ_discrete (suc d % 2) 1) [
  | yes odd ↦
      let half : (suc d + 1) / 2 ≡ suc d / 2 + 1 = omega arith in
      let rest : bit_and (suc d / 2 + 1) (suc d / 2) ≡ 0 =
        rw (← half) (omega (arith, bit_and_last (suc d + 1) (suc d))) in
      let (k, p) = shares_no_bit n (suc d / 2) (omega arith) rest in
      (suc k, omega (arith, pow-suc 2 k))
  | no even ↦
      let half : (suc d + 1) / 2 ≡ suc d / 2 = omega arith in
      let whole : bit_and ((suc d + 1) / 2) (suc d / 2) ≡ 0 =
        omega (arith, bit_and_last (suc d + 1) (suc d)) in
      let rest : bit_and (suc d / 2) (suc d / 2) ≡ 0 = rw half at whole in
      absurd (omega (arith, conjoined_once (suc d / 2) (suc d / 2) (omega arith)))
]

pow_pos : (k : ℕ) → 0 < 2 ^ k
pow_pos zero = omega arith
pow_pos (suc k) = omega (arith, pow-suc 2 k, pow_pos k)

pow-pred : (k : ℕ) → bit_and (2 ^ k) (2 ^ k - 1) ≡ 0
pow-pred zero = refl
pow-pred (suc k) =
    let even : 2 ^ suc k / 2 ≡ 2 ^ k = omega (arith, pow-suc 2 k) in
    let odd : (2 ^ suc k - 1) / 2 ≡ 2 ^ k - 1 = omega (arith, pow-suc 2 k, pow_pos k) in
    omega (
      arith,
      bit_and_last (2 ^ suc k) (2 ^ suc k - 1),
      ap₂ bit_and even odd,
      pow-pred k,
      pow-suc 2 k,
      pow_pos k,
    )

-- Over a width, the test of a difference in range is the test of the number of values.
test_iff : (w d : ℕ) → d < 2 ^ w → (power_of_2_test w d ≡ true) ↔ ((k : ℕ) × (d + 1 ≡ 2 ^ k))
unfolding power_of_2_test
test_iff w d h = (sound, complete)
  where
    small : d ≢ 2 ^ w - 1 → (d + 1) % 2 ^ w ≡ d + 1
    small n = mod-eq_of_lt (omega arith)

    sound : power_of_2_test w d ≡ true → (k : ℕ) × (d + 1 ≡ 2 ^ k)
    sound e = elim (ℕ_discrete d 0) [
      | yes z ↦ (0, omega arith)
      | no z ↦ elim (ℕ_discrete d (2 ^ w - 1)) [
        | yes m ↦ (w, omega arith)
        | no m ↦
            shares_no_bit (suc d) d (omega arith) (ground (arith, ap (λ x. bit_and x d) (small m)))
      ]
    ]

    complete : (k : ℕ) × (d + 1 ≡ 2 ^ k) → power_of_2_test w d ≡ true
    complete (k, e) =
        let back : d + 1 - 1 ≡ d = omega arith in
        let power : bit_and (d + 1) (d + 1 - 1) ≡ 0 = rw e (pow-pred k) in
        elim (ℕ_discrete d (2 ^ w - 1)) [
          | yes m ↦ ground arith
          | no m ↦ ground (arith, ap (λ x. bit_and x d) (small m), rw back at power)
        ]

distance :
    (c : RangeClass) (a b : ℕ)
    → a ≤ b
    → b < 2 ^ width c
    → ((b + 2 ^ width c - a) % 2 ^ width c ≡ b - a)
      × ((b + 2 ^ width c - a) % 2 ^ width c < 2 ^ width c)
distance range16 a b h k = omega arith
distance _ a b h k = omega arith

-- In its value type, the difference of a range in order is the distance of the bounds.
pub difference_lem :
    (r : Range)
    → r.lbound ≤ r.ubound
    → r.ubound < 2 ^ width r.cls
    → (difference r ≡ r.ubound - r.lbound) × (difference r < 2 ^ width r.cls)
unfolding difference
difference_lem r h k = distance r.cls r.lbound r.ubound h k

-- Of a range whose bounds are in order and fit its value type, `is_power_of_2` is true exactly
-- when the number of values in the range is a power of two, the full range included.
pub is_power_of_2_iff :
    (r : Range)
    → r.lbound ≤ r.ubound
    → r.ubound < 2 ^ width r.cls
    → (is_power_of_2 r ≡ true) ↔ ((k : ℕ) × (r.ubound - r.lbound + 1 ≡ 2 ^ k))
unfolding is_power_of_2
is_power_of_2_iff r h k =
    let (e, bound) = difference_lem r h k in rw (← e) (test_iff (width r.cls) (difference r) bound)
