-- ===== src/Cache.antt =====
-- src/model/cache.h: the objects of one kind by their names.
pub mod Laws
use text.Mathlib.Text.{◌==◌ as str_eq}
use rules_analyzer.Base.{if◌then◌else◌, List, [], ◌∷◌, Option, none, some, String, Outcome, ok, err}

-- The exception of `set` for a name that is in the cache.
pub data CacheFault : Type 0 where
  already_in_cache : String → CacheFault

-- `_items`.
abbrev pub Cache : Type 0 → Type 0
Cache T = List (String × T)

module _ {T : Type 0} where
  unfoldable pub get : String → Cache T → Option T
  get name [] = none
  get name ((key, item) ∷ items) = if str_eq key name then some item else get name items

  -- `insert` leaves an entry of the name as it is, and says so.
  abbrev pub insert_new : Option T → String → T → Cache T → Outcome CacheFault (Cache T)
  insert_new none name item items = ok ((name, item) ∷ items)
  insert_new (some old) name item items = err (already_in_cache name)

  unfoldable pub set : String → T → Cache T → Outcome CacheFault (Cache T)
  unfolding get
  set name item items = insert_new (get name items) name item items
