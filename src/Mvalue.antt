-- ===== src/Mvalue.antt =====
-- src/model/mvalue.cpp: a range of values over a domain, as a diagram over the domain's variable.
pub mod Laws
mod Tests
use rules_analyzer.Base.{ℕ, Bool, ◌^◌, if◌then◌else◌}
use rules_analyzer.Bdd.{Buddy}
use rules_analyzer.Range.{Range, is_singleton, range_eq, lbound_bvec, ubound_bvec}
use rules_analyzer.Domain.{DomainType, ordinal, nbits, create_full_range}

pub record Mvalue : Type 0 where
  pub domain : DomainType
  pub range : Range

module _ (L : Buddy) where
  open L use {Bdd, Bvec, Packet, bddtrue, bdd_and, bvec_var, bvec_equ, bvec_lte, read}

  -- `Domains::get().get_var(dt)`: the variable is as wide as the domain.
  abbrev pub var : DomainType → Bvec
  var dt = bvec_var (nbits dt) (ordinal dt)

  -- `_all`, set by the constructor.
  unfoldable pub covers_domain : Mvalue → Bool
  unfolding range_eq
  covers_domain v = range_eq L v.range (create_full_range v.domain)

  unfoldable pub make_bdd : Mvalue → Bdd
  unfolding is_singleton
  make_bdd v =
      if covers_domain v
      then bddtrue
      else if is_singleton v.range
      then bvec_equ (var v.domain) (lbound_bvec L v.range)
      else bdd_and (bvec_lte (lbound_bvec L v.range) (var v.domain))
          (bvec_lte (var v.domain) (ubound_bvec L v.range))

  -- The value of a packet in a domain.
  abbrev pub value : DomainType → Packet → ℕ
  value dt p = read (var dt) p
