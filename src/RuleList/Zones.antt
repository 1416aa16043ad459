-- ===== src/RuleList/Zones.antt =====
-- RuleList::all_zones and all_src_zones (src/model/rulelist.cpp): the zones that the rules use, one
-- for each name. The zones that are left out are told by their addresses.
mod Tests
use text.Mathlib.Text.{◌==◌ as str_eq}
use text.Mathlib.TextEquality.{eq_iff}
use rules_analyzer.Base.{
  ℕ, ◌==◌, ◌≡◌, refl, sym, ap, ◌∙◌, Bool, true, false, not, ◌&&◌, ◌||◌, if◌then◌else◌, List, [],
  ◌∷◌, ◌++◌, any, any-append, arith, Bool-cases, inl, inr, String,
}
use rules_analyzer.Bdd.{Buddy}
use rules_analyzer.Group as Groups
use rules_analyzer.Zone.{Zone, ZoneGroup, zone_node}
use rules_analyzer.Rule.{Rule}
use rules_analyzer.NamedList.{Named, NamedMnodeList, has, push_back}
use rules_analyzer.NamedList.Names.{IsWellFormed, names_of, push_back-IsWellFormed}

abbrev pub zone_names : Named Zone
zone_names = record { Name = String; name = λ z. z.name; eq = str_eq; eq_iff = eq_iff }

abbrev pub ZoneList : Type 0
ZoneList = NamedMnodeList zone_names

abbrev pub no_zones : ZoneList
no_zones = record { named_node_names = []; named_node_list = [] }

-- `excluded_set.find(zone) == excluded_set.end()`.
abbrev pub is_wanted : List ℕ → Zone → Bool
is_wanted excluded_set z = not (any (λ a. a == z.address) excluded_set)

abbrev pub push_wanted : Bool → Zone → ZoneList → ZoneList
push_wanted true z zones = push_back zone_names z zones
push_wanted false z zones = zones

-- One of the inner loops.
unfoldable pub push_zones : List ℕ → List Zone → ZoneList → ZoneList
push_zones excluded_set [] zones = zones
push_zones excluded_set (z ∷ zs) zones =
    push_zones excluded_set zs (push_wanted (is_wanted excluded_set z) z zones)

module _ (L : Buddy) where
  -- The loops over the rules.
  unfoldable pub push_all_zones : List ℕ → List Rule → ZoneList → ZoneList
  push_all_zones excluded_set [] zones = zones
  push_all_zones excluded_set (r ∷ rs) zones =
      let src = push_zones excluded_set (Groups.items (zone_node L) r.predicate.src_zones) zones in
      push_all_zones excluded_set rs
        (push_zones excluded_set (Groups.items (zone_node L) r.predicate.dst_zones) src)

  unfoldable pub push_src_zones : List ℕ → List Rule → ZoneList → ZoneList
  push_src_zones excluded_set [] zones = zones
  push_src_zones excluded_set (r ∷ rs) zones =
      push_src_zones excluded_set rs
        (push_zones excluded_set (Groups.items (zone_node L) r.predicate.src_zones) zones)

  unfoldable pub all_zones : List ℕ → List Rule → ZoneList
  unfolding push_all_zones
  all_zones excluded_set rules = push_all_zones excluded_set rules no_zones

  unfoldable pub all_src_zones : List ℕ → List Rule → ZoneList
  unfolding push_src_zones
  all_src_zones excluded_set rules = push_src_zones excluded_set rules no_zones

module _ (L : Buddy) (excluded_set : List ℕ) where
  -- One of the zones has the name and is not left out.
  abbrev pub is_named : String → List Zone → Bool
  is_named n = any (λ z. is_wanted excluded_set z && str_eq z.name n)

  abbrev pub is_src_zone_name : String → Rule → Bool
  is_src_zone_name n r = is_named n (Groups.items (zone_node L) r.predicate.src_zones)

  abbrev pub is_dst_zone_name : String → Rule → Bool
  is_dst_zone_name n r = is_named n (Groups.items (zone_node L) r.predicate.dst_zones)

  has-push_zone :
      (n : String) (z : Zone) (zones : ZoneList)
      → has zone_names n (push_back zone_names z zones).named_node_names
        ≡ (has zone_names n zones.named_node_names || str_eq z.name n)
  unfolding push_back
  has-push_zone n z zones = elim (Bool-cases (has zone_names z.name zones.named_node_names)) [
    | inl old ↦ elim (Bool-cases (str_eq z.name n)) [
      | inl same ↦
          let there : has zone_names n zones.named_node_names ≡ true =
            ap (λ m. has zone_names m zones.named_node_names) (sym ((eq_iff z.name n).0 same))
            ∙ old in
          rw (old, there) refl
      | inr other ↦ rw (old, other) (ground arith)
    ]
    | inr new ↦ rw new (ground arith)
  ]

  has-push_wanted :
      (n : String) (wanted : Bool) (z : Zone) (zones : ZoneList)
      → has zone_names n (push_wanted wanted z zones).named_node_names
        ≡ (has zone_names n zones.named_node_names || wanted && str_eq z.name n)
  has-push_wanted n true z zones = has-push_zone n z zones
  has-push_wanted n false z zones = ground arith

  push_wanted-IsWellFormed :
      (wanted : Bool) (z : Zone) (zones : ZoneList)
      → IsWellFormed zone_names zones
      → IsWellFormed zone_names (push_wanted wanted z zones)
  push_wanted-IsWellFormed true z zones w = push_back-IsWellFormed zone_names z zones w
  push_wanted-IsWellFormed false z zones w = w

  has-push_zones :
      (n : String) (zs : List Zone) (zones : ZoneList)
      → has zone_names n (push_zones excluded_set zs zones).named_node_names
        ≡ (has zone_names n zones.named_node_names || is_named n zs)
  unfolding push_zones
  has-push_zones n [] zones = ground arith
  has-push_zones n (z ∷ zs) zones =
      let wanted = is_wanted excluded_set z in
      has-push_zones n zs (push_wanted wanted z zones)
      ∙ ground (arith, has-push_wanted n wanted z zones)

  push_zones-IsWellFormed :
      (zs : List Zone) (zones : ZoneList)
      → IsWellFormed zone_names zones
      → IsWellFormed zone_names (push_zones excluded_set zs zones)
  unfolding push_zones
  push_zones-IsWellFormed [] zones w = w
  push_zones-IsWellFormed (z ∷ zs) zones w =
      let wanted = is_wanted excluded_set z in
      push_zones-IsWellFormed zs (push_wanted wanted z zones)
        (push_wanted-IsWellFormed wanted z zones w)

  empty_IsWellFormed : IsWellFormed zone_names no_zones
  empty_IsWellFormed = record { same = λ n. refl; unique = tt }

  -- The names of the list are distinct, and they are those of the given test.
  pub record ListsNames (test : String → Bool) (zones : ZoneList) : Type 0 where
    pub well_formed : IsWellFormed zone_names zones
    pub exact : (n : String) → has zone_names n (names_of zone_names zones.named_node_list) ≡ test n

  push_rules :
      (rs : List Rule) (zones : ZoneList)
      → IsWellFormed zone_names zones
      → IsWellFormed zone_names (push_all_zones L excluded_set rs zones)
        × ((n : String)
            → has zone_names n (push_all_zones L excluded_set rs zones).named_node_names ≡ (
                has zone_names n zones.named_node_names
                || any (λ r. is_src_zone_name n r || is_dst_zone_name n r) rs))
  unfolding push_all_zones
  push_rules [] zones w = (w, λ n. ground arith)
  push_rules (r ∷ rs) zones w =
      let src_items = Groups.items (zone_node L) r.predicate.src_zones in
      let dst_items = Groups.items (zone_node L) r.predicate.dst_zones in
      let src = push_zones excluded_set src_items zones in
      let both = push_zones excluded_set dst_items src in
      let rest =
        push_rules rs both
          (push_zones-IsWellFormed dst_items src (push_zones-IsWellFormed src_items zones w)) in
      (
        rest.0,
        λ n.
            rest.1 n
            ∙ ground (arith, has-push_zones n dst_items src, has-push_zones n src_items zones),
      )

  -- all_zones lists distinct names, which are just those of the source and destination zones of the
  -- rules that are not left out.
  pub all_zones_names :
      (rs : List Rule)
      → ListsNames
          (λ n. any (λ r. is_src_zone_name n r || is_dst_zone_name n r) rs)
          (all_zones L excluded_set rs)
  unfolding all_zones
  all_zones_names rs =
      let pushed = push_rules rs no_zones empty_IsWellFormed in
      record { well_formed = pushed.0; exact = λ n. sym (pushed.0.same n) ∙ pushed.1 n }

  push_src_rules :
      (rs : List Rule) (zones : ZoneList)
      → IsWellFormed zone_names zones
      → IsWellFormed zone_names (push_src_zones L excluded_set rs zones)
        × ((n : String)
            → has zone_names n (push_src_zones L excluded_set rs zones).named_node_names
              ≡ (has zone_names n zones.named_node_names || any (is_src_zone_name n) rs))
  unfolding push_src_zones
  push_src_rules [] zones w = (w, λ n. ground arith)
  push_src_rules (r ∷ rs) zones w =
      let src_items = Groups.items (zone_node L) r.predicate.src_zones in
      let src = push_zones excluded_set src_items zones in
      let rest = push_src_rules rs src (push_zones-IsWellFormed src_items zones w) in
      (rest.0, λ n. rest.1 n ∙ ground (arith, has-push_zones n src_items zones))

  -- all_src_zones lists distinct names, which are just those of the source zones of the rules that
  -- are not left out.
  pub all_src_zones_names :
      (rs : List Rule)
      → ListsNames (λ n. any (is_src_zone_name n) rs) (all_src_zones L excluded_set rs)
  unfolding all_src_zones
  all_src_zones_names rs =
      let pushed = push_src_rules rs no_zones empty_IsWellFormed in
      record { well_formed = pushed.0; exact = λ n. sym (pushed.0.same n) ∙ pushed.1 n }
