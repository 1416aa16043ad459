-- ===== src/Group/Clone.antt =====
-- `clone` of a group (src/model/group.h, and the overrides of src/model/service.cpp,
-- application.cpp, zone.cpp, address.cpp, user.cpp and url.cpp): the members are shared, the groups
-- below are copied.
use rules_analyzer.Base.{ℕ, ◌+◌, ◌≡◌, refl, ap, ◌∙◌}
use rules_analyzer.Bdd.{Buddy}
use rules_analyzer.Group.{
  Node, GroupClass, plain, any_group, app_default, Group, group, Members, nil, item, sub, make_bdd,
  or_members,
}

-- AppDefaultServiceGroup does not override `clone`, so its copy is a plain group.
abbrev pub cloned_class : GroupClass → GroupClass
cloned_class plain = plain
cloned_class any_group = any_group
cloned_class app_default = plain

module _ {T : Type 0} where
  abbrev mutual
    pub group_count : Group T → ℕ
    group_count (group cls a n ms) = 1 + group_count_members ms

    group_count_members : Members T → ℕ
    group_count_members nil = 0
    group_count_members (item t ms) = group_count_members ms
    group_count_members (sub g ms) = group_count g + group_count_members ms

  -- The copies stand at addresses from a fresh one on. The members of a group are distinct, so
  -- `add_member` adds each of them again. The copy of an Any group has an Any item of its own, for
  -- which the item of the original stands here.
  unfoldable mutual
    pub clone : ℕ → Group T → Group T
    clone fresh (group cls a n ms) = group (cloned_class cls) fresh n (clone_members (fresh + 1) ms)

    pub clone_members : ℕ → Members T → Members T
    clone_members fresh nil = nil
    clone_members fresh (item t ms) = item t (clone_members fresh ms)
    clone_members fresh (sub g ms) = sub (clone fresh g) (clone_members (fresh + group_count g) ms)

module _ (L : Buddy) {T : Type 0} (node : Node L T) where
  mutual
    unfolding clone clone_members make_bdd or_members

    clone_keeps : (fresh : ℕ) (g : Group T) → make_bdd node (clone fresh g) ≡ make_bdd node g
    clone_keeps fresh (group plain a n ms) = or_members-clone (fresh + 1) L.bddfalse ms
    clone_keeps fresh (group any_group a n ms) = refl
    clone_keeps fresh (group app_default a n ms) = or_members-clone (fresh + 1) L.bddfalse ms

    or_members-clone :
        (fresh : ℕ) (b : L.Bdd) (ms : Members T)
        → or_members node b (clone_members fresh ms) ≡ or_members node b ms
    or_members-clone fresh b nil = refl
    or_members-clone fresh b (item t ms) = or_members-clone fresh (L.bdd_or b (node.make_bdd t)) ms
    or_members-clone fresh b (sub g ms) =
        ap (λ c. or_members node (L.bdd_or b c) (clone_members (fresh + group_count g) ms))
          (clone_keeps fresh g)
        ∙ or_members-clone (fresh + group_count g) (L.bdd_or b (make_bdd node g)) ms

  -- The copy of a group has the diagram of the group, whatever groups stand below it.
  pub make_bdd-clone : (fresh : ℕ) (g : Group T) → make_bdd node (clone fresh g) ≡ make_bdd node g
  make_bdd-clone = clone_keeps
