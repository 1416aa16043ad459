-- ===== src/GenericResolver.antt =====
-- src/ostore/genericresolver.h: the members of a pool, with those of the pools that it names, by a walk
-- with a stack of pools. The `get` of the dictionary of objects is virtual, and a parameter here.
pub mod Members
pub mod Expansion
pub mod Chain
pub mod Fuel
pub mod Loops
mod Tests
use rules_analyzer.Base.{
  ℕ, zero, suc, ◌+◌, ◌*◌, Bool, if◌then◌else◌, List, [], ◌∷◌, ◌++◌, length, Option, none, some,
  String, Outcome, ok, err, has_name, erase_name,
}
use rules_analyzer.Cache.{Cache, get}

-- A pool of a dictionary. Its name is the key that it has there, by which pools are told apart.
pub record Pool : Type 0 where
  pub name : String
  pub members : List String

pub data PoolMember (O : Type 0) : Type 0 where
  object : O → PoolMember O
  pool : Pool → PoolMember O

-- A member of the chain: a pool, and its members from `member_index` on.
pub record Frame : Type 0 where
  pub current_pool : Pool
  pub rest : List String

-- The exception: a pool that is named while it is in the chain.
pub data ResolverFault : Type 0 where
  loop_in : String → ResolverFault

-- The variables of `resolve`. The top of the chain comes first.
pub record Walk (O : Type 0) : Type 0 where
  pub expanded_list : List (PoolMember O)
  pub unresolved : List String
  pub chain : List Frame
  pub visited : List String

-- The members of all pools.
abbrev pub total_members : Cache Pool → ℕ
total_members [] = 0
total_members ((key, p) ∷ ps) = length p.members + total_members ps

-- The turns that a member may take, when a number of pools is not in the chain.
abbrev pub turns : Cache Pool → ℕ → ℕ
turns pools zero = 1
turns pools (suc free) = 2 + total_members pools * turns pools free

abbrev pub resolve_fuel : Cache Pool → Pool → ℕ
resolve_fuel pools p = length p.members * turns pools (length pools) + 1

module _ {O : Type 0} (find_object : String → Option O) (pools : Cache Pool) where
  abbrev pub add_object : O → Walk O → Walk O
  add_object o w = record w { expanded_list = w.expanded_list ++ object o ∷ [] }

  -- Moves down to a pool.
  abbrev pub push : Pool → Walk O → Walk O
  push p w = record w {
    chain = record { current_pool = p; rest = p.members } ∷ w.chain;
    visited = p.name ∷ w.visited;
  }

  -- The next member: an object, a pool, or a name that neither dictionary has.
  abbrev pub visit : Option O → Option Pool → String → Walk O → Outcome ResolverFault (Walk O)
  visit (some o) p node_name w = ok (add_object o w)
  visit none (some p) node_name w =
      if has_name p.name w.visited then err (loop_in node_name) else ok (push p w)
  visit none none node_name w = ok (record w { unresolved = w.unresolved ++ node_name ∷ [] })

  -- Moves up from a pool.
  abbrev pub pop : Pool → List Frame → Walk O → Walk O
  pop p chain w = record w {
    expanded_list = w.expanded_list ++ pool p ∷ [];
    chain = chain;
    visited = erase_name p.name w.visited;
  }

  -- The body of the loop, at the members that are left at the top of the chain.
  abbrev pub turn : Pool → List String → List Frame → Walk O → Outcome ResolverFault (Walk O)
  turn p [] chain w = ok (pop p chain w)
  turn p (node_name ∷ rest) chain w =
      visit (find_object node_name) (get node_name pools) node_name
        (record w { chain = record { current_pool = p; rest = rest } ∷ chain })

  -- Goes on behind a turn, unless it throws.
  abbrev pub go_on :
      (List Frame → Walk O → Option (Outcome ResolverFault (Walk O)))
      → Outcome ResolverFault (Walk O)
      → Option (Outcome ResolverFault (Walk O))
  go_on next (ok w) = next w.chain w
  go_on next (err fault) = some (err fault)

  -- The loop, with `none` when the fuel is used up.
  unfoldable pub walk : ℕ → List Frame → Walk O → Option (Outcome ResolverFault (Walk O))
  unfolding get
  walk fuel [] w = some (ok w)
  walk zero (top ∷ chain) w = none
  walk (suc fuel) (top ∷ chain) w =
      go_on (λ next v. walk fuel next v) (turn top.current_pool top.rest chain w)

  abbrev pub start : Pool → List String → Walk O
  start p unresolved = record {
    expanded_list = [];
    unresolved = unresolved;
    chain = record { current_pool = p; rest = p.members } ∷ [];
    visited = [];
  }

  unfoldable pub resolve : Pool → List String → Option (Outcome ResolverFault (Walk O))
  unfolding walk
  resolve p unresolved = walk (resolve_fuel pools p) (start p unresolved).chain (start p unresolved)
