-- ===== src/Group.antt =====
-- src/model/group.h: a hierarchy of named items. Objects are told apart by their address; the sets
-- `_items` and `_groups` hold the direct members, so looking one up is a search of these.
pub mod Flat
pub mod Clone
mod Tests
use rules_analyzer.Base.{
  ℕ, ◌+◌, ◌==◌, Bool, true, false, ◌||◌, if◌then◌else◌, List, [], ◌∷◌, ◌++◌, any, length, String,
}
use rules_analyzer.Bdd.{Buddy}

-- What the template asks of its items: an address, a name and the virtual `make_bdd`.
pub record Node (L : Buddy) (T : Type 0) : Type 0 where
  pub address : T → ℕ
  pub name : T → String
  pub make_bdd : T → L.Bdd

-- The class of a group: Group<T> itself, one of the Any groups, which override `make_bdd`, or
-- AppDefaultServiceGroup.
pub data GroupClass : Type 0 where
  plain any_group app_default : GroupClass

mutual
  pub data Group (T : Type 0) : Type 0 where
    group : GroupClass → ℕ → String → Members T → Group T

  pub data Members (T : Type 0) : Type 0 where
    nil : Members T
    item : T → Members T → Members T
    sub : Group T → Members T → Members T

module _ {T : Type 0} where
  abbrev pub group_address : Group T → ℕ
  group_address (group cls a n ms) = a

  abbrev pub group_name : Group T → String
  group_name (group cls a n ms) = n

  abbrev pub group_class : Group T → GroupClass
  group_class (group cls a n ms) = cls

  abbrev pub members : Group T → Members T
  members (group cls a n ms) = ms

  abbrev push_item : Members T → T → Members T
  push_item nil t = item t nil
  push_item (item s ms) t = item s (push_item ms t)
  push_item (sub g ms) t = sub g (push_item ms t)

  abbrev push_group : Members T → Group T → Members T
  push_group nil h = sub h nil
  push_group (item s ms) h = item s (push_group ms h)
  push_group (sub g ms) h = sub g (push_group ms h)

  -- `_groups.find`.
  abbrev pub direct_group : Members T → ℕ → Bool
  direct_group nil a = false
  direct_group (item t ms) a = direct_group ms a
  direct_group (sub g ms) a = group_address g == a || direct_group ms a

  unfoldable pub add_group : Group T → Group T → Group T
  add_group (group cls a n ms) h =
      if direct_group ms (group_address h)
      then group cls a n ms
      else group cls a n (push_group ms h)

  -- `parse`: the callback runs on each item, depth first.
  unfoldable mutual
    pub parse {ℓ} : {S : Type ℓ} → (S → T → S) → S → Group T → S
    parse f s (group cls a n ms) = parse_members f s ms

    pub parse_members {ℓ} : {S : Type ℓ} → (S → T → S) → S → Members T → S
    parse_members f s nil = s
    parse_members f s (item t ms) = parse_members f (f s t) ms
    parse_members f s (sub g ms) = parse_members f (parse f s g) ms

  unfoldable mutual
    pub contains_group : Group T → ℕ → Bool
    contains_group (group cls a n ms) t = direct_group ms t || sub_contains_group ms t

    pub sub_contains_group : Members T → ℕ → Bool
    sub_contains_group nil t = false
    sub_contains_group (item s ms) t = sub_contains_group ms t
    sub_contains_group (sub g ms) t = contains_group g t || sub_contains_group ms t

  unfoldable mutual
    pub size : Group T → ℕ
    size (group cls a n ms) = size_members ms

    pub size_members : Members T → ℕ
    size_members nil = 0
    size_members (item t ms) = 1 + size_members ms
    size_members (sub g ms) = size g + size_members ms

module _ {L : Buddy} {T : Type 0} (node : Node L T) where
  open L use {Bdd, bddtrue, bddfalse, bdd_or}
  open node use {address, name}

  -- `_items.find`.
  abbrev pub direct_item : Members T → ℕ → Bool
  direct_item nil a = false
  direct_item (item t ms) a = address t == a || direct_item ms a
  direct_item (sub g ms) a = direct_item ms a

  unfoldable pub add_item : Group T → T → Group T
  add_item (group cls a n ms) t =
      if direct_item ms (address t) then group cls a n ms else group cls a n (push_item ms t)

  unfoldable mutual
    pub contains_item : Group T → ℕ → Bool
    contains_item (group cls a n ms) t = direct_item ms t || sub_contains_item ms t

    pub sub_contains_item : Members T → ℕ → Bool
    sub_contains_item nil t = false
    sub_contains_item (item s ms) t = sub_contains_item ms t
    sub_contains_item (sub g ms) t = contains_item g t || sub_contains_item ms t

  abbrev pub names_members : Members T → List String
  names_members nil = []
  names_members (item t ms) = name t ∷ names_members ms
  names_members (sub g ms) = group_name g ∷ names_members ms

  abbrev pub names : Group T → List String
  names g = names_members (members g)

  -- The callback of `items`: an address is kept once.
  abbrev pub resolve : List T → T → List T
  resolve found t = if any (λ s. address s == address t) found then found else found ++ t ∷ []

  unfoldable pub items : Group T → List T
  unfolding parse
  items g = parse resolve [] g

  unfoldable pub empty : Group T → Bool
  unfolding items
  empty g = length (items g) == 0

  -- `make_bdd` is virtual: an Any group answers with truth.
  unfoldable mutual
    pub make_bdd : Group T → Bdd
    make_bdd (group plain a n ms) = or_members bddfalse ms
    make_bdd (group any_group a n ms) = bddtrue
    make_bdd (group app_default a n ms) = or_members bddfalse ms

    pub or_members : Bdd → Members T → Bdd
    or_members condition nil = condition
    or_members condition (item t ms) = or_members (bdd_or condition (node.make_bdd t)) ms
    or_members condition (sub g ms) = or_members (bdd_or condition (make_bdd g)) ms
