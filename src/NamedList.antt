-- ===== src/NamedList.antt =====
-- NamedMnodeList (src/model/mnode.h): a list of nodes of distinct names, with the set of its names.
pub mod Names
mod Tests
use rules_analyzer.Base.{
  ◌≡◌, ◌↔◌, Bool, true, false, not, if◌then◌else◌, List, [], ◌∷◌, ◌++◌, any, filter,
}

-- Nodes with names that can be compared.
pub record Named (T : Type 0) : Type 1 where
  pub Name : Type 0
  pub name : T → Name
  pub eq : Name → Name → Bool
  pub eq_iff : (a b : Name) → (eq a b ≡ true) ↔ (a ≡ b)

module _ {T : Type 0} (N : Named T) where
  open N use {Name, name, eq}

  -- `_named_node_names` and `_named_node_list`.
  pub record NamedMnodeList : Type 0 where
    pub named_node_names : List Name
    pub named_node_list : List T

  abbrev pub has : Name → List Name → Bool
  has n = any (λ m. eq m n)

  -- The name goes to the set, and the node to the list only if the name is new.
  unfoldable pub push_back : T → NamedMnodeList → NamedMnodeList
  push_back t l = if has (name t) l.named_node_names then l else record {
    named_node_names = name t ∷ l.named_node_names;
    named_node_list = l.named_node_list ++ t ∷ [];
  }

  -- The search by `std::find_if`, and the erasure of what it finds.
  abbrev pub erase_node : Name → List T → List T
  erase_node n [] = []
  erase_node n (t ∷ ts) = if eq (name t) n then ts else t ∷ erase_node n ts

  abbrev pub erase_name : Name → List Name → List Name
  erase_name n = filter (λ m. not (eq m n))

  -- `remove`: whether the name was there, and the list after it.
  abbrev pub remove_present : Bool → Name → NamedMnodeList → Bool × NamedMnodeList
  remove_present true n l = (
    true,
    record {
      named_node_names = erase_name n l.named_node_names;
      named_node_list = erase_node n l.named_node_list;
    },
  )
  remove_present false n l = (false, l)

  unfoldable pub remove : Name → NamedMnodeList → Bool × NamedMnodeList
  remove n l = remove_present (has n l.named_node_names) n l
