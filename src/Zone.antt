-- ===== src/Zone.antt =====
-- src/model/zone.h and src/model/zone.cpp: source and destination zones, and the groups of any
-- zone.
use rules_analyzer.Base.{ℕ, String}
use rules_analyzer.Bdd.{Buddy}
use rules_analyzer.Range.{Range}
use rules_analyzer.Domain.{DomainType, src_zone, dst_zone, create_full_range, create_singleton}
use rules_analyzer.Mvalue.{Mvalue}
use rules_analyzer.Mvalue as Value
use rules_analyzer.Group.{Node, Group, group, item, nil, any_group}

-- SrcZone and DstZone differ in the domain of their value.
pub record Zone : Type 0 where
  pub address : ℕ
  pub name : String
  pub value : Mvalue

abbrev pub zone_of_range : DomainType → ℕ → String → Range → Zone
zone_of_range dt a n r = record { address = a; name = n; value = record { domain = dt; range = r } }

-- `create`, of a zone identifier.
abbrev pub create_zone : DomainType → ℕ → String → ℕ → Zone
create_zone dt a n zone_id = zone_of_range dt a n (create_singleton dt zone_id)

-- The zone of the other direction with the same range, at a new address.
abbrev pub convert_zone : DomainType → ℕ → String → Zone → Zone
convert_zone dt a n z = zone_of_range dt a n z.value.range

abbrev pub any_zone : DomainType → ℕ → Zone
any_zone dt a = zone_of_range dt a "any" (create_full_range dt)

abbrev pub ZoneGroup : Type 0
ZoneGroup = Group Zone

abbrev pub src_any_zone_group : ℕ → ℕ → ZoneGroup
src_any_zone_group a b = group any_group a "$src-any-zone-group" (item (any_zone src_zone b) nil)

abbrev pub dst_any_zone_group : ℕ → ℕ → ZoneGroup
dst_any_zone_group a b = group any_group a "$dst-any-zone-group" (item (any_zone dst_zone b) nil)

module _ (L : Buddy) where
  abbrev pub zone_node : Node L Zone
  zone_node = record {
    address = λ z. z.address;
    name = λ z. z.name;
    make_bdd = λ z. Value.make_bdd L z.value;
  }
