-- ===== src/Mnode.antt =====
-- src/model/mnode.h and src/model/mnode.cpp: the set operations of the abstract class Mnode. A node
-- is seen through the diagram that its virtual `make_bdd` returns, so each function takes diagrams.
pub mod Laws
mod Tests
use rules_analyzer.Base.{Bool, true, false, not, ◌||◌, if◌then◌else◌, String}
use rules_analyzer.Bdd.{Buddy}

pub data MnodeRelationship : Type 0 where
  equal subset superset disjoint overlap : MnodeRelationship

pub to_string : MnodeRelationship → String
to_string equal = "equal"
to_string subset = "subset"
to_string superset = "superset"
to_string disjoint = "disjoint"
to_string overlap = "overlap"

module _ (L : Buddy) where
  open L use {Bdd, bddtrue, bddfalse, bdd_not, bdd_and, bdd_imp, same}

  unfoldable pub is_any : Bdd → Bool
  is_any a = same a bddtrue

  unfoldable pub is_none : Bdd → Bool
  is_none a = same a bddfalse

  unfoldable pub is_subset : Bdd → Bdd → Bool
  is_subset a b = same a b || same (bdd_imp a b) bddtrue

  unfoldable pub is_superset : Bdd → Bdd → Bool
  unfolding is_subset
  is_superset a b = is_subset b a

  unfoldable pub is_disjoint : Bdd → Bdd → Bool
  is_disjoint a b = same (bdd_and a b) bddfalse

  unfoldable pub overlaps : Bdd → Bdd → Bool
  unfolding is_disjoint
  overlaps a b = not (is_disjoint a b)

  unfoldable pub equals : Bdd → Bdd → Bool
  equals a b = same a b

  unfoldable pub negate_if : Bdd → Bool → Bdd
  negate_if a condition = if condition then bdd_not a else a

  unfoldable pub compare : Bdd → Bdd → MnodeRelationship
  compare a b =
      if same a b
      then equal
      else if same (bdd_imp a b) bddtrue
      then subset
      else if same (bdd_imp b a) bddtrue
      then superset
      else if same (bdd_and a b) bddfalse
      then disjoint
      else overlap
