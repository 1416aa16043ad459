-- ===== src/Range.antt =====
-- src/model/range.h, src/model/range.cpp and src/model/rangeimpl.h: a range of unsigned values held
-- in a certain number of bits. The value type T of RangeImpl<T> is told by the class of the range.
pub mod PowerOf2
mod Tests
use Prim.Native.Nat.{bit_and}
use rules_analyzer.Base.{ℕ, ◌+◌, ◌-◌, ◌%◌, ◌^◌, Bool, true, ◌&&◌, ◌==◌, if◌then◌else◌}
use rules_analyzer.Bdd.{Buddy}

-- Range16, Ipv4Range over Range32, and Ipv6Range over Range128 with its `ipv4_format`.
pub data RangeClass : Type 0 where
  range16 ipv4_range : RangeClass
  ipv6_range : Bool → RangeClass

pub record Range : Type 0 where
  pub cls : RangeClass
  pub nbits : ℕ
  pub lbound : ℕ
  pub ubound : ℕ

-- The width of T.
abbrev pub width : RangeClass → ℕ
width range16 = 16
width ipv4_range = 32
width (ipv6_range _) = 128

unfoldable pub is_singleton : Range → Bool
is_singleton r = r.lbound == r.ubound

-- `_ubound - _lbound` in T.
unfoldable pub difference : Range → ℕ
difference r = (r.ubound + 2 ^ width r.cls - r.lbound) % 2 ^ width r.cls

power_of_2_test : ℕ → ℕ → Bool
power_of_2_test w diff =
    if diff == 0
    then true
    else if diff == 2 ^ w - 1
    then true
    else bit_and ((diff + 1) % 2 ^ w) diff == 0

unfoldable pub is_power_of_2 : Range → Bool
unfolding power_of_2_test
is_power_of_2 r = power_of_2_test (width r.cls) (difference r)

module _ (L : Buddy) where
  open L use {Bvec, bvec_con, bvec_equ, bddtrue, same}

  abbrev pub lbound_bvec : Range → Bvec
  lbound_bvec r = bvec_con r.nbits r.lbound

  abbrev pub ubound_bvec : Range → Bvec
  ubound_bvec r = bvec_con r.nbits r.ubound

  -- `operator==`: both comparisons of bit vectors give the diagram of truth.
  unfoldable pub range_eq : Range → Range → Bool
  range_eq r other =
      same (bvec_equ (lbound_bvec r) (lbound_bvec other)) bddtrue
      && same (bvec_equ (ubound_bvec r) (ubound_bvec other)) bddtrue
