-- ===== src/PacketTester/Given.antt =====
-- What the traffic and the rules say of a packet, part by part. A part of the traffic that is not
-- given is not looked at: with no user given, a rule for one user matches the packets of another.
use rules_analyzer.Base.{
  ℕ, ◌≡◌, refl, ◌∙◌, Bool, true, ◌&&◌, if◌then◌else◌, Option, none, some, arith, Bool-cases, inl,
  inr,
}
use rules_analyzer.Bdd.{Buddy}
use rules_analyzer.Mvalue as Value
use rules_analyzer.Group.{Node, Group, GroupClass, group, plain, any_group, app_default}
use rules_analyzer.Group as Groups
use rules_analyzer.Group.Clone.{clone}
use rules_analyzer.Zone.{Zone, ZoneGroup, zone_node}
use rules_analyzer.Address.{address_node}
use rules_analyzer.Service.{ServiceGroup, service_node, is_app_services}
use rules_analyzer.Application.{ApplicationGroup, application_node, default_services}
use rules_analyzer.User.{user_node, url_node}
use rules_analyzer.Predicate.{
  Predicate, src_addresses_bdd, dst_addresses_bdd, services_bdd, make_bdd_with, and_if,
}
use rules_analyzer.Predicate.Parts.{
  not_if, in_group, clone-is_app_services, holds-clone, holds-negate_if,
}
use rules_analyzer.Rule.{Rule}
use rules_analyzer.PacketTester.{
  Traffic, bdd_options, test_predicate, is_given, zone_group, clone_or,
}

-- A condition on a part that counts only when the part is given.
abbrev given {ℓ} : {A : Type ℓ} → Option A → Bool → Bool
given none condition = true
given (some a) condition = condition

module _ (L : Buddy) where
  open L use {Bdd, Packet, holds}

  abbrev in_zone : Option Zone → Packet → Bool
  in_zone none p = true
  in_zone (some z) p = holds (Value.make_bdd L z.value) p

  abbrev in_given : {T : Type 0} → Node L T → Option (Group T) → Packet → Bool
  in_given node none p = true
  in_given node (some g) p = in_group L node g p

  -- A packet is of the traffic when it is in each part that is given.
  abbrev pub is_traffic : Traffic → Packet → Bool
  is_traffic t p =
      in_group L (address_node L) t.src_addr_grp p
      && in_group L (address_node L) t.dst_addr_grp p
      && in_zone t.src_zone p
      && in_zone t.dst_zone p
      && (in_group L (service_node L) t.svc_grp p && in_given (application_node L) t.app_grp p)
      && in_given (user_node L) t.usr_grp p
      && in_given (url_node L) t.url_grp p

  -- A rule with the default services of its applications says nothing of the services beside an
  -- application that is given. Without one it asks for the services of its applications.
  abbrev services_match : ℕ → Option ApplicationGroup → Predicate → Packet → Bool
  services_match fresh (some apps) q p =
      (if is_app_services q.services then true else in_group L (service_node L) q.services p)
      && in_group L (application_node L) q.applications p
  services_match fresh none q p =
      if is_app_services q.services
      then in_group L (service_node L) (default_services L fresh q.applications) p
      else in_group L (service_node L) q.services p

  abbrev pub predicate_match : ℕ → Traffic → Predicate → Packet → Bool
  predicate_match fresh t q p =
      not_if q.negate_src_addresses (in_group L (address_node L) q.src_addresses p)
      && not_if q.negate_dst_addresses (in_group L (address_node L) q.dst_addresses p)
      && given t.src_zone (in_group L (zone_node L) q.src_zones p)
      && given t.dst_zone (in_group L (zone_node L) q.dst_zones p)
      && services_match fresh t.app_grp q p
      && given t.usr_grp (in_group L (user_node L) q.users p)
      && given t.url_grp (in_group L (url_node L) q.urls p)

  -- A rule matches a packet in the addresses, in the services, and in the zones, the applications,
  -- the users and the urls that are given.
  abbrev pub matches_given : ℕ → Traffic → Rule → Packet → Bool
  matches_given fresh t r p = predicate_match fresh t r.predicate p

  both : {a b c d : Bool} → a ≡ b → c ≡ d → (a && c) ≡ (b && d)
  both e f = rw (e, f) refl

  holds-and_if-given :
      {A : Type 0} (o : Option A) (extra b : Bdd) (p : Packet)
      → holds (and_if L (is_given o) extra b) p ≡ (holds b p && given o (holds extra p))
  holds-and_if-given none extra b p = ground arith
  holds-and_if-given (some a) extra b p = L.holds_and b extra p

  holds-addresses :
      (q : Predicate) (p : Packet)
      → holds (L.bdd_and (src_addresses_bdd L q) (dst_addresses_bdd L q)) p ≡ (
          not_if q.negate_src_addresses (in_group L (address_node L) q.src_addresses p)
          && not_if q.negate_dst_addresses (in_group L (address_node L) q.dst_addresses p))
  unfolding src_addresses_bdd dst_addresses_bdd
  holds-addresses q p =
      L.holds_and _ _ p
      ∙ both (holds-negate_if L q.negate_src_addresses _ p _ refl)
          (holds-negate_if L q.negate_dst_addresses _ p _ refl)

  holds-services :
      (o : Option ApplicationGroup) (fresh : ℕ) (q : Predicate) (b : Bdd) (p : Packet)
      → holds
          (if is_given o
            then L.bdd_and b
                (L.bdd_and (services_bdd L q) (Groups.make_bdd (application_node L) q.applications))
            else L.bdd_and b (
                if is_app_services q.services
                then Groups.make_bdd (service_node L) (default_services L fresh q.applications)
                else Groups.make_bdd (service_node L) q.services))
          p
        ≡ (holds b p && services_match fresh o q p)
  unfolding services_bdd
  holds-services none fresh q b p = elim (Bool-cases (is_app_services q.services)) [
    | inl default ↦ rw default (L.holds_and b _ p)
    | inr own ↦ rw own (L.holds_and b _ p)
  ]
  holds-services (some apps) fresh q b p = elim (Bool-cases (is_app_services q.services)) [
    | inl default ↦
        rw default (L.holds_and b _ p ∙ both refl (L.holds_and _ _ p ∙ both (L.holds_true p) refl))
    | inr own ↦ rw own (L.holds_and b _ p ∙ both refl (L.holds_and _ _ p))
  ]

  -- The diagram of a predicate, with the options of the traffic.
  pub holds-make_bdd_with :
      (fresh : ℕ) (t : Traffic) (q : Predicate) (p : Packet)
      → holds (make_bdd_with L fresh (bdd_options t) q) p ≡ predicate_match fresh t q p
  unfolding make_bdd_with
  holds-make_bdd_with fresh t q p =
      holds-and_if-given t.url_grp _ _ p
      ∙ both
          (holds-and_if-given t.usr_grp _ _ p
            ∙ both
                (holds-services t.app_grp fresh q _ p
                  ∙ both
                      (holds-and_if-given t.dst_zone _ _ p
                        ∙ both
                            (holds-and_if-given t.src_zone _ _ p ∙ both (holds-addresses q p) refl)
                            refl)
                      refl)
                refl)
          refl

  given-zone_group :
      (any_zones : ZoneGroup) (a : ℕ) (o : Option Zone) (p : Packet)
      → given o (in_group L (zone_node L) (zone_group any_zones a o) p) ≡ in_zone o p
  unfolding Groups.make_bdd Groups.or_members
  given-zone_group any_zones a none p = refl
  given-zone_group any_zones a (some z) p =
      L.holds_or L.bddfalse (Value.make_bdd L z.value) p ∙ ground (arith, L.holds_false p)

  given-clone_or :
      {T : Type 0} (node : Node L T) (any : Group T) (a : ℕ) (o : Option (Group T)) (p : Packet)
      → given o (in_group L node (clone_or any (clone a) o) p) ≡ in_given node o p
  given-clone_or node any a none p = refl
  given-clone_or node any a (some g) p = holds-clone L node a g p

  services_match-clone :
      (o : Option ApplicationGroup) (fresh app_at svc_at : ℕ) (any : ApplicationGroup)
      (svc_grp : ServiceGroup) (q : Predicate) (p : Packet)
      → q.services ≡ clone svc_at svc_grp
      → q.applications ≡ clone_or any (clone app_at) o
      → services_match fresh o q p
        ≡ (in_group L (service_node L) svc_grp p && in_given (application_node L) o p)
  services_match-clone none fresh app_at svc_at any svc_grp q p e f =
      rw (e, clone-is_app_services svc_at svc_grp)
        (holds-clone L (service_node L) svc_at svc_grp p ∙ ground arith)
  services_match-clone (some g) fresh app_at svc_at any svc_grp q p e f =
      rw (e, f, clone-is_app_services svc_at svc_grp)
        (both (holds-clone L (service_node L) svc_at svc_grp p)
          (holds-clone L (application_node L) app_at g p))

  -- The test diagram holds of the packets of the traffic.
  pub holds-test_predicate :
      (fresh : ℕ) (t : Traffic) (p : Packet)
      → holds (make_bdd_with L fresh (bdd_options t) (test_predicate fresh t)) p ≡ is_traffic t p
  holds-test_predicate fresh t p =
      holds-make_bdd_with fresh t (test_predicate fresh t) p
      ∙ both
          (both
            (both
              (both
                (both
                  (both (holds-clone L (address_node L) _ t.src_addr_grp p)
                    (holds-clone L (address_node L) _ t.dst_addr_grp p))
                  (given-zone_group _ _ t.src_zone p))
                (given-zone_group _ _ t.dst_zone p))
              (services_match-clone t.app_grp fresh _ _ _ t.svc_grp (test_predicate fresh t) p refl
                refl))
            (given-clone_or (user_node L) _ _ t.usr_grp p))
          (given-clone_or (url_node L) _ _ t.url_grp p)
