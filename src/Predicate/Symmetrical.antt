-- ===== src/Predicate/Symmetrical.antt =====
-- `Predicate::symmetrical` (src/model/predicate.cpp): the predicate of the traffic the other way.
-- The zones and addresses of one side become those of the other, at addresses from a fresh one on.
use rules_analyzer.Base.{ℕ, ◌+◌, false, List, [], ◌∷◌, Option, none, some, String, length}
use rules_analyzer.Bdd.{Buddy}
use rules_analyzer.Domain.{DomainType, src_zone, dst_zone}
use rules_analyzer.Group.{group, plain, Members, nil, item, items}
use rules_analyzer.Group.Clone.{clone, group_count}
use rules_analyzer.Zone.{Zone, convert_zone, zone_node}
use rules_analyzer.Address.{IpAddress, Side, source, destination, convert_address, address_node}
use rules_analyzer.Predicate.{Predicate}

-- The loops that convert the zones of a side; a source zone gets no name.
abbrev pub convert_zones : DomainType → (Zone → String) → ℕ → List Zone → Members Zone
convert_zones dt name fresh [] = nil
convert_zones dt name fresh (z ∷ zs) =
    item (convert_zone dt fresh (name z) z) (convert_zones dt name (fresh + 1) zs)

abbrev cons_item {ℓ} : {A : Type ℓ} {B : Type 0} → (A → B) → Option A → Option B
cons_item f none = none
cons_item f (some a) = some (f a)

-- The conversion of an address throws when its range has no number of bits of an address.
abbrev pub convert_next : Option IpAddress → Option (Members IpAddress) → Option (Members IpAddress)
convert_next none rest = none
convert_next (some a) rest = cons_item (item a) rest

abbrev pub convert_addresses : Side → ℕ → List IpAddress → Option (Members IpAddress)
convert_addresses side fresh [] = some nil
convert_addresses side fresh (a ∷ rest) =
    convert_next (convert_address side fresh a) (convert_addresses side (fresh + 1) rest)

-- SymmetricalPredicate, once its groups of addresses are there. The two flags stay where they are.
abbrev pub swap_sides :
    ℕ → Predicate → Members Zone → Members Zone → Members IpAddress → Members IpAddress → Predicate
swap_sides fresh q src_zones dst_zones src_addresses dst_addresses =
    let svc_at : ℕ = fresh + 4 in
    let app_at : ℕ = svc_at + group_count q.services in
    let usr_at : ℕ = app_at + group_count q.applications in
    let url_at : ℕ = usr_at + group_count q.users in
    record {
      is_any_predicate = false;
      src_zones = group plain fresh "" src_zones;
      dst_zones = group plain (fresh + 1) "" dst_zones;
      src_addresses = group plain (fresh + 2) "" src_addresses;
      negate_src_addresses = q.negate_src_addresses;
      dst_addresses = group plain (fresh + 3) "" dst_addresses;
      negate_dst_addresses = q.negate_dst_addresses;
      services = clone svc_at q.services;
      applications = clone app_at q.applications;
      users = clone usr_at q.users;
      urls = clone url_at q.urls;
    }

abbrev pub with_addresses :
    (Members IpAddress → Members IpAddress → Predicate)
    → Option (Members IpAddress)
    → Option (Members IpAddress)
    → Option Predicate
with_addresses build none dst = none
with_addresses build (some src) none = none
with_addresses build (some src) (some dst) = some (build src dst)

module _ (L : Buddy) where
  -- `symmetrical`, with `none` for the exception. The zones and addresses stand at places from
  -- `places` on, and the groups from `fresh` on.
  unfoldable pub symmetrical : ℕ → ℕ → Predicate → Option Predicate
  symmetrical places fresh q =
      let src_zones = items (zone_node L) q.src_zones in
      let dst_zones = items (zone_node L) q.dst_zones in
      let src_addresses = items (address_node L) q.src_addresses in
      let dst_addresses = items (address_node L) q.dst_addresses in
      let dst_at : ℕ = places + length dst_zones in
      let src_addresses_at : ℕ = dst_at + length src_zones in
      let dst_addresses_at : ℕ = src_addresses_at + length dst_addresses in
      with_addresses
        (swap_sides fresh q (convert_zones src_zone (λ z. "") places dst_zones)
          (convert_zones dst_zone (λ z. z.name) dst_at src_zones))
        (convert_addresses source src_addresses_at dst_addresses)
        (convert_addresses destination dst_addresses_at src_addresses)
