-- ===== src/ObjectDictionary.antt =====
-- src/ostore/objectdictionary.h: the objects of one kind by their names, as the entries of a std::map
-- in the order of the names.
pub mod Entries
mod Tests
use Prim.Native.Nat.{Ordering}
use Prim.Native.String.{compare}
use text.Mathlib.Text.{◌==◌ as str_eq}
use rules_analyzer.Base.{
  ℕ, ◌+◌, Bool, true, false, if◌then◌else◌, List, [], ◌∷◌, length, Option, none, some, String,
}
use rules_analyzer.Strutil.{codes}
use rules_analyzer.Match.{match}
use rules_analyzer.Cache.{Cache}
use rules_analyzer.Cache

abbrev comes_first : Ordering → Bool
comes_first Ordering.lt = true
comes_first Ordering.eq = false
comes_first Ordering.gt = false

-- What `match` says. It always ends.
abbrev said : Option Bool → Bool
said none = false
said (some b) = b

module _ {T : Type 0} where
  -- The search of a name, and the insertion of the item in its place or the replacement of the old one.
  unfoldable pub insert_item : String → T → Cache T → Cache T
  insert_item name item [] = (name, item) ∷ []
  insert_item name item ((key, old) ∷ items) =
      let rest = insert_item name item items in
      if str_eq key name
      then (key, item) ∷ items
      else if comes_first (compare name key)
      then (name, item) ∷ (key, old) ∷ items
      else (key, old) ∷ rest

  -- `erase`.
  unfoldable pub del : String → Cache T → Cache T
  del name [] = []
  del name ((key, item) ∷ items) =
      let rest = del name items in if str_eq key name then items else (key, item) ∷ rest

  unfoldable pub get : String → Cache T → Option T
  unfolding Cache.get
  get = Cache.get

  module _ (name_of : T → String) where
    -- `add` of an item that may be the null pointer.
    unfoldable pub add : Option T → Cache T → Cache T
    unfolding insert_item
    add none items = items
    add (some item) items = insert_item (name_of item) item items

    -- `load`, from the objects that the rows of the reader make: how many were added, and the items.
    unfoldable pub load : List (Option T) → ℕ → Cache T → ℕ × Cache T
    unfolding add
    load [] counter items = (counter, items)
    load (none ∷ objects) counter items = load objects counter items
    load (some item ∷ objects) counter items = load objects (counter + 1) (add (some item) items)

    unfoldable pub query : String → Cache T → List T
    unfolding match
    query wildcard [] = []
    query wildcard ((key, item) ∷ items) =
        let selected = query wildcard items in
        if said (match (codes wildcard) (codes (name_of item))) then item ∷ selected else selected
