-- ===== src/Domain.antt =====
-- src/model/domain.h, src/model/domain.cpp and the collection of src/model/domains.cpp: the
-- thirteen variables of the model, their widths, and the ranges that a domain builds.
use rules_analyzer.Base.{ℕ, ◌-◌, ◌^◌, false, List, [], ◌∷◌}
use rules_analyzer.Range.{Range, range16, ipv4_range, ipv6_range}

pub data DomainType : Type 0 where
  src_zone src_address4 src_address6 dst_zone dst_address4 dst_address6 : DomainType
  protocol dst_tcp_port dst_udp_port icmp_type application user url : DomainType

-- The value of the enumerator.
abbrev pub ordinal : DomainType → ℕ
ordinal src_zone = 0
ordinal src_address4 = 1
ordinal src_address6 = 2
ordinal dst_zone = 3
ordinal dst_address4 = 4
ordinal dst_address6 = 5
ordinal protocol = 6
ordinal dst_tcp_port = 7
ordinal dst_udp_port = 8
ordinal icmp_type = 9
ordinal application = 10
ordinal user = 11
ordinal url = 12

-- `nbits()` of each domain class.
abbrev pub nbits : DomainType → ℕ
nbits src_zone = 8
nbits src_address4 = 32
nbits src_address6 = 128
nbits dst_zone = 8
nbits dst_address4 = 32
nbits dst_address6 = 128
nbits protocol = 2
nbits dst_tcp_port = 16
nbits dst_udp_port = 16
nbits icmp_type = 16
nbits application = 10
nbits user = 11
nbits url = 11

-- `min()` and `max()`: the limits of the integer type, or `(1 << nbits()) - 1`.
abbrev pub min_value : DomainType → ℕ
min_value dt = 0

abbrev pub max_value : DomainType → ℕ
max_value dt = 2 ^ nbits dt - 1

-- `create_range` of each domain class. The addresses have classes of their own.
abbrev pub create_range : DomainType → ℕ → ℕ → Range
create_range src_address4 lb ub = record { cls = ipv4_range; nbits = 32; lbound = lb; ubound = ub }
create_range dst_address4 lb ub = record { cls = ipv4_range; nbits = 32; lbound = lb; ubound = ub }
create_range src_address6 lb ub = record {
  cls = ipv6_range false;
  nbits = 128;
  lbound = lb;
  ubound = ub;
}
create_range dst_address6 lb ub = record {
  cls = ipv6_range false;
  nbits = 128;
  lbound = lb;
  ubound = ub;
}
create_range dt lb ub = record { cls = range16; nbits = nbits dt; lbound = lb; ubound = ub }

abbrev pub create_full_range : DomainType → Range
create_full_range dt = create_range dt (min_value dt) (max_value dt)

abbrev pub create_singleton : DomainType → ℕ → Range
create_singleton dt value = create_range dt value value

-- The constructor of Domains, in the order of the enumeration.
abbrev pub domains : List DomainType
domains =
    src_zone ∷ src_address4 ∷ src_address6 ∷ dst_zone ∷ dst_address4 ∷ dst_address6 ∷ protocol
    ∷ dst_tcp_port ∷ dst_udp_port ∷ icmp_type ∷ application ∷ user ∷ url ∷ []
