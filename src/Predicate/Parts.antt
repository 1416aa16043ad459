-- ===== src/Predicate/Parts.antt =====
-- The parts of a predicate (src/model/predicate.cpp): a group, its copy, and the negation of a side.
use rules_analyzer.Base.{ℕ, ◌≡◌, refl, ap, ◌∙◌, Bool, true, false, not}
use rules_analyzer.Bdd.{Buddy}
use rules_analyzer.Mnode.{negate_if}
use rules_analyzer.Group.{Node, Group, GroupClass, group, plain, any_group, app_default}
use rules_analyzer.Group as Groups
use rules_analyzer.Group.Clone.{clone, make_bdd-clone}
use rules_analyzer.Service.{ServiceGroup, is_app_services}

abbrev pub not_if : Bool → Bool → Bool
not_if true condition = not condition
not_if false condition = condition

-- The copy of the default services is a group like any other.
pub clone-is_app_services : (fresh : ℕ) (g : ServiceGroup) → is_app_services (clone fresh g) ≡ false
unfolding clone
clone-is_app_services fresh (group plain a n ms) = refl
clone-is_app_services fresh (group any_group a n ms) = refl
clone-is_app_services fresh (group app_default a n ms) = refl

module _ (L : Buddy) where
  open L use {Bdd, Packet, holds}

  abbrev pub in_group : {T : Type 0} → Node L T → Group T → Packet → Bool
  in_group node g p = holds (Groups.make_bdd node g) p

  pub holds-clone :
      {T : Type 0} (node : Node L T) (fresh : ℕ) (g : Group T) (p : Packet)
      → in_group node (clone fresh g) p ≡ in_group node g p
  holds-clone node fresh g p = ap (λ b. holds b p) (make_bdd-clone L node fresh g)

  pub holds-negate_if :
      (flag : Bool) (b : Bdd) (p : Packet) (inside : Bool)
      → holds b p ≡ inside
      → holds (negate_if L b flag) p ≡ not_if flag inside
  unfolding negate_if
  holds-negate_if true b p inside e = L.holds_not b p ∙ ap not e
  holds-negate_if false b p inside e = e
