-- ===== src/Predicate/Turned.antt =====
-- What the predicate of the other way (src/model/predicate.cpp) says of a packet, part by part.
use rules_analyzer.Base.{
  ℕ, ◌+◌, ◌==◌, ◌≡◌, refl, ap, ◌∙◌, Bool, true, false, ◌&&◌, ◌||◌, List, [], ◌∷◌, any, length, none,
  some, String, arith, Bool-cases, inl, inr,
}
use rules_analyzer.Bdd.{Buddy}
use rules_analyzer.Range.{Range}
use rules_analyzer.Domain.{
  DomainType, src_zone, dst_zone, src_address4, src_address6, dst_address4, dst_address6,
}
use rules_analyzer.Mvalue.{Mvalue}
use rules_analyzer.Mvalue as Value
use rules_analyzer.Group.{
  Node, Group, Members, GroupClass, group, plain, any_group, app_default, items,
}
use rules_analyzer.Group as Groups
use rules_analyzer.Group.Clone.{clone}
use rules_analyzer.Zone.{Zone, zone_node}
use rules_analyzer.Address.{
  IpAddress, Side, source, destination, address_node, address_domain, convert_address,
}
use rules_analyzer.Service.{ServiceGroup, service_node}
use rules_analyzer.Application.{application_node}
use rules_analyzer.User.{user_node, url_node}
use rules_analyzer.Predicate.{
  Predicate, make_bdd, conjunction, src_addresses_bdd, dst_addresses_bdd, services_bdd,
}
use rules_analyzer.Predicate.Parts.{
  not_if, in_group, clone-is_app_services, holds-clone, holds-negate_if,
}
use rules_analyzer.Predicate.Symmetrical.{
  convert_zones, convert_next, convert_addresses, swap_sides, symmetrical,
}

-- The domain of an address as one of a side: 32 bits are an IPv4 address.
abbrev domain_on : Side → Bool → DomainType
domain_on source true = src_address4
domain_on source false = src_address6
domain_on destination true = dst_address4
domain_on destination false = dst_address6

abbrev has_32_bits : IpAddress → Bool
has_32_bits x = x.value.range.nbits == 32

-- Each address has 32 or 128 bits.
abbrev pub AreAddresses : List IpAddress → Type 0
AreAddresses [] = Unit
AreAddresses (x ∷ xs) =
    ((x.value.range.nbits == 32 || x.value.range.nbits == 128) ≡ true) × AreAddresses xs

module _ (L : Buddy) where
  open L use {Bdd, Packet, holds}

  -- The range of a zone, read in the zone of a side of the packet, and that of an address.
  abbrev zone_on : DomainType → Zone → Packet → Bool
  zone_on dt z p = holds (Value.make_bdd L (record { domain = dt; range = z.value.range })) p

  abbrev address_on : Side → IpAddress → Packet → Bool
  address_on side x p =
      holds
        (Value.make_bdd L
          (record { domain = domain_on side (has_32_bits x); range = x.value.range }))
        p

  -- The source of the packet is in the destination zones and addresses, and its destination in the
  -- source ones. The negation of the source addresses applies to the destination addresses that
  -- take their place, and the other way round. The rest is as it was.
  abbrev pub turned : Predicate → Packet → Bool
  turned q p =
      any (λ z. zone_on src_zone z p) (items (zone_node L) q.dst_zones)
      && any (λ z. zone_on dst_zone z p) (items (zone_node L) q.src_zones)
      && not_if q.negate_src_addresses
          (any (λ x. address_on source x p) (items (address_node L) q.dst_addresses))
      && not_if q.negate_dst_addresses
          (any (λ x. address_on destination x p) (items (address_node L) q.src_addresses))
      && in_group L (service_node L) q.services p
      && in_group L (application_node L) q.applications p
      && in_group L (user_node L) q.users p
      && in_group L (url_node L) q.urls p

  pub record IsConvertible (q : Predicate) : Type 0 where
    pub src : AreAddresses (items (address_node L) q.src_addresses)
    pub dst : AreAddresses (items (address_node L) q.dst_addresses)

  or_step :
      (b c : Bdd) (p : Packet) (rest : Bool)
      → (holds (L.bdd_or b c) p || rest) ≡ (holds b p || (holds c p || rest))
  or_step b c p rest = ground (arith, L.holds_or b c p)

  or_members-convert_zones :
      (dt : DomainType) (name : Zone → String) (fresh : ℕ) (zs : List Zone) (b : Bdd) (p : Packet)
      → holds (Groups.or_members (zone_node L) b (convert_zones dt name fresh zs)) p
        ≡ (holds b p || any (λ z. zone_on dt z p) zs)
  unfolding Groups.or_members
  or_members-convert_zones dt name fresh [] b p = ground arith
  or_members-convert_zones dt name fresh (z ∷ zs) b p =
      or_members-convert_zones dt name (fresh + 1) zs _ p ∙ or_step b _ p _

  address_domain_lem :
      (side : Side) (r : Range)
      → (r.nbits == 32 || r.nbits == 128) ≡ true
      → address_domain side r ≡ some (domain_on side (r.nbits == 32))
  address_domain_lem source r h = elim (Bool-cases (r.nbits == 32)) [
    | inl four ↦ rw four refl
    | inr six ↦ let long : (r.nbits == 128) ≡ true = ground arith in rw (six, long) refl
  ]
  address_domain_lem destination r h = elim (Bool-cases (r.nbits == 32)) [
    | inl four ↦ rw four refl
    | inr six ↦ let long : (r.nbits == 128) ≡ true = ground arith in rw (six, long) refl
  ]

  -- The address on a side, at a new place.
  abbrev placed : Side → ℕ → IpAddress → IpAddress
  placed side fresh x = record {
    address = fresh;
    name = x.name;
    value = record { domain = domain_on side (has_32_bits x); range = x.value.range };
  }

  convert_address_lem :
      (side : Side) (fresh : ℕ) (x : IpAddress)
      → (x.value.range.nbits == 32 || x.value.range.nbits == 128) ≡ true
      → convert_address side fresh x ≡ some (placed side fresh x)
  convert_address_lem side fresh x h =
      ap
        (λ d. elim d [
          | none ↦ none
          | some dt ↦ some (record {
            address = fresh;
            name = x.name;
            value = record { domain = dt; range = x.value.range };
          })
        ])
        (address_domain_lem side x.value.range h)

  convert_addresses_lem :
      (side : Side) (fresh : ℕ) (xs : List IpAddress)
      → AreAddresses xs
      → (ms : Members IpAddress) × (convert_addresses side fresh xs ≡ some ms)
        × ((b : Bdd) (p : Packet)
            → holds (Groups.or_members (address_node L) b ms) p
              ≡ (holds b p || any (λ x. address_on side x p) xs))
  unfolding Groups.or_members
  convert_addresses_lem side fresh [] h = (Groups.nil, refl, λ b p. ground arith)
  convert_addresses_lem side fresh (x ∷ xs) h =
      let (ms, e, all) = convert_addresses_lem side (fresh + 1) xs h.1 in
      (
        Groups.item (placed side fresh x) ms,
        rw e (ap (λ d. convert_next d (some ms)) (convert_address_lem side fresh x h.0)),
        λ b p. all _ p ∙ or_step b _ p _,
      )

  in_plain :
      {T : Type 0} (node : Node L T) (a : ℕ) (ms : Members T) (p : Packet) (some_holds : Bool)
      → ((b : Bdd) → holds (Groups.or_members node b ms) p ≡ (holds b p || some_holds))
      → in_group L node (group plain a "" ms) p ≡ some_holds
  unfolding Groups.make_bdd
  in_plain node a ms p some_holds h = h L.bddfalse ∙ ground (arith, L.holds_false p)

  services-clone :
      (q : Predicate) (fresh : ℕ) (g : ServiceGroup) (p : Packet)
      → q.services ≡ clone fresh g
      → holds (services_bdd L q) p ≡ in_group L (service_node L) g p
  unfolding services_bdd
  services-clone q fresh g p e =
      rw (e, clone-is_app_services fresh g) (holds-clone L (service_node L) fresh g p)

  also :
      (a b : Bdd) (p : Packet) (c d : Bool)
      → holds a p ≡ c
      → holds b p ≡ d
      → holds (L.bdd_and a b) p ≡ (c && d)
  also a b p c d e f = rw (← e, ← f) (L.holds_and a b p)

  -- The other way of a predicate whose addresses have 32 or 128 bits exists, and holds of a packet
  -- as `turned` says.
  pub holds-symmetrical :
      (places fresh : ℕ) (q : Predicate)
      → IsConvertible q
      → (o : Predicate) × (symmetrical L places fresh q ≡ some o)
        × ((p : Packet) → holds (make_bdd L o) p ≡ turned q p)
  unfolding symmetrical make_bdd conjunction src_addresses_bdd dst_addresses_bdd
  holds-symmetrical places fresh q c =
      let src_zones = items (zone_node L) q.src_zones in
      let dst_zones = items (zone_node L) q.dst_zones in
      let at : ℕ = places + length dst_zones + length src_zones in
      let (src, e, in_src) = convert_addresses_lem source at _ c.dst in
      let (dst, f, in_dst) =
        convert_addresses_lem destination (at + length (items (address_node L) q.dst_addresses)) _
          c.src in
      let o =
        swap_sides fresh q (convert_zones src_zone (λ z. "") places dst_zones)
          (convert_zones dst_zone (λ z. z.name) (places + length dst_zones) src_zones) src dst in
      (
        o,
        rw (e, f) refl,
        λ p.
            also _ _ p _ _
              (also _ _ p _ _
                (also _ _ p _ _
                  (also _ _ p _ _
                    (also _ _ p _ _
                      (also _ _ p _ _
                        (also _ _ p _ _
                          (in_plain (zone_node L) _ _ p _
                            (λ b. or_members-convert_zones src_zone _ _ dst_zones b p))
                          (in_plain (zone_node L) _ _ p _
                            (λ b. or_members-convert_zones dst_zone _ _ src_zones b p)))
                        (holds-negate_if L q.negate_src_addresses _ p _
                          (in_plain (address_node L) _ src p _ (λ b. in_src b p))))
                      (holds-negate_if L q.negate_dst_addresses _ p _
                        (in_plain (address_node L) _ dst p _ (λ b. in_dst b p))))
                    (services-clone o _ q.services p refl))
                  (holds-clone L (application_node L) _ q.applications p))
                (holds-clone L (user_node L) _ q.users p))
              (holds-clone L (url_node L) _ q.urls p),
      )
