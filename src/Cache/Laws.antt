-- ===== src/Cache/Laws.antt =====
-- Reading a Cache (src/model/cache.h) after a write.
use text.Mathlib.Text.{◌==◌ as str_eq}
use rules_analyzer.Base.{◌≡◌, refl, if◌then◌else◌, ◌∷◌, Option, none, some, String, ok}
use rules_analyzer.Cache.{Cache, get, insert_new, set}

module _ {T : Type 0} where
  inserted :
      (o : Option T) (name : String) (item : T) (items items' : Cache T)
      → insert_new o name item items ≡ ok items'
      → items' ≡ (name, item) ∷ items
  inserted none name item items items' h = cc
  inserted (some old) name item items items' h = cc

  -- A successful `set` makes its name answer with the item, and leaves the others alone.
  pub get-set :
      (name n : String) (item : T) (items items' : Cache T)
      → set name item items ≡ ok items'
      → get n items' ≡ (if str_eq name n then some item else get n items)
  unfolding get set
  get-set name n item items items' h = rw (inserted _ name item items items' h) refl

  -- It succeeds for a name that is not in the cache.
  pub set-new :
      (name : String) (item : T) (items : Cache T)
      → get name items ≡ none
      → set name item items ≡ ok ((name, item) ∷ items)
  unfolding set
  set-new name item items h = rw h refl
