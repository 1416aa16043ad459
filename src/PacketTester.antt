-- ===== src/PacketTester.antt =====
-- src/model/packettester.h and src/model/packettester.cpp: whether a policy lets some traffic pass.
pub mod Given
pub mod Laws
mod Tests
use rules_analyzer.Base.{
  ℕ, ◌+◌, Bool, true, false, if◌then◌else◌, String, [], ◌∷◌, Option, none, some,
}
use rules_analyzer.Bdd.{Buddy}
use rules_analyzer.Mnode.{is_subset}
use rules_analyzer.Options.{Options}
use rules_analyzer.Group.{Group, group, plain, item, nil}
use rules_analyzer.Group.Clone.{clone, group_count}
use rules_analyzer.Zone.{Zone, ZoneGroup, src_any_zone_group, dst_any_zone_group}
use rules_analyzer.Address.{AddressGroup}
use rules_analyzer.Service.{ServiceGroup}
use rules_analyzer.Application.{ApplicationGroup, any_application_group}
use rules_analyzer.User.{UserGroup, any_user_group, any_url_group}
use rules_analyzer.Predicate.{
  Predicate, BddOption, source_zone, destination_zone, application, user, url, make_bdd_with,
}
use rules_analyzer.Rule.{Rule, RuleAction, allow, action_eq}
use rules_analyzer.RuleList.{RuleList}

-- The arguments of `is_packet_allowed`; a null pointer is `none`.
pub record Traffic : Type 0 where
  pub src_zone : Option Zone
  pub src_addr_grp : AddressGroup
  pub dst_zone : Option Zone
  pub dst_addr_grp : AddressGroup
  pub svc_grp : ServiceGroup
  pub app_grp : Option ApplicationGroup
  pub usr_grp : Option UserGroup
  pub url_grp : Option UserGroup

abbrev pub is_given {ℓ} : {A : Type ℓ} → Option A → Bool
is_given none = false
is_given (some a) = true

-- The options are those of the arguments that are given.
abbrev pub bdd_options : Traffic → Options BddOption
bdd_options t = record {
  contains = λ option. elim option [
    | source_zone ↦ is_given t.src_zone
    | destination_zone ↦ is_given t.dst_zone
    | application ↦ is_given t.app_grp
    | user ↦ is_given t.usr_grp
    | url ↦ is_given t.url_grp
  ];
}

-- The group of one zone without a name, or the group of any zone.
abbrev pub zone_group : ZoneGroup → ℕ → Option Zone → ZoneGroup
zone_group any_zones a none = any_zones
zone_group any_zones a (some z) = group plain a "" (item z nil)

abbrev pub clone_or {ℓ} : {A : Type ℓ} → A → (A → A) → Option A → A
clone_or default copy none = default
clone_or default copy (some a) = copy a

-- Room for the groups of a copy, and of a group that may be given.
abbrev count : {T : Type 0} → Option (Group T) → ℕ
count none = 0
count (some g) = group_count g

-- The test predicate, with its groups at addresses from a fresh one on.
abbrev pub test_predicate : ℕ → Traffic → Predicate
test_predicate fresh t =
    let src_at : ℕ = fresh + 12 in
    let dst_at : ℕ = src_at + group_count t.src_addr_grp in
    let svc_at : ℕ = dst_at + group_count t.dst_addr_grp in
    let app_at : ℕ = svc_at + group_count t.svc_grp in
    let usr_at : ℕ = app_at + count t.app_grp in
    let url_at : ℕ = usr_at + count t.usr_grp in
    record {
      is_any_predicate = false;
      src_zones = zone_group (src_any_zone_group fresh (fresh + 1)) fresh t.src_zone;
      dst_zones = zone_group (dst_any_zone_group (fresh + 2) (fresh + 3)) (fresh + 2) t.dst_zone;
      src_addresses = clone src_at t.src_addr_grp;
      negate_src_addresses = false;
      dst_addresses = clone dst_at t.dst_addr_grp;
      negate_dst_addresses = false;
      services = clone svc_at t.svc_grp;
      applications =
          clone_or (any_application_group (fresh + 4) (fresh + 5) (fresh + 6) (fresh + 7))
            (clone app_at) t.app_grp;
      users = clone_or (any_user_group (fresh + 8) (fresh + 9)) (clone usr_at) t.usr_grp;
      urls = clone_or (any_url_group (fresh + 10) (fresh + 11)) (clone url_at) t.url_grp;
    }

module _ (L : Buddy) where
  -- The loop over the rules: the action of the first rule that covers the diagram, and the rule.
  unfoldable pub test_rules : ℕ → Options BddOption → L.Bdd → RuleList → Bool × Option Rule
  test_rules fresh options test_bdd [] = (false, none)
  test_rules fresh options test_bdd (rule ∷ acl) =
      if is_subset L test_bdd (make_bdd_with L fresh options rule.predicate)
      then (action_eq rule.action allow, some rule)
      else test_rules fresh options test_bdd acl

  unfoldable pub is_packet_allowed : ℕ → Traffic → RuleList → Bool × Option Rule
  unfolding test_rules
  is_packet_allowed fresh t acl =
      let test_bdd = make_bdd_with L fresh (bdd_options t) (test_predicate fresh t) in
      test_rules fresh (bdd_options t) test_bdd acl
