-- ===== src/ObjectDictionary/Entries.antt =====
-- Reading an ObjectDictionary (src/ostore/objectdictionary.h) after items are added.
use Prim.Native.String.{compare}
use text.Mathlib.Text.{◌==◌ as str_eq}
use text.Mathlib.TextEquality.{eq_iff}
use rules_analyzer.Base.{
  ℕ, ◌+◌, ◌≡◌, refl, sym, ap, ◌∙◌, false, if◌then◌else◌, List, [], ◌∷◌, Option, none, some, String,
  Bool-cases, inl, inr, arith,
}
use rules_analyzer.Cache.{Cache}
use rules_analyzer.Cache
use rules_analyzer.ObjectDictionary.{comes_first, insert_item, get, add, load}

module _ {T : Type 0} where
  pub get-insert_item :
      (name n : String) (item : T) (items : Cache T)
      → get n (insert_item name item items) ≡ (if str_eq name n then some item else get n items)
  unfolding get insert_item Cache.get
  get-insert_item name n item [] = refl
  get-insert_item name n item ((key, old) ∷ items) = elim (Bool-cases (str_eq key name)) [
    | inl here ↦
        let alike : str_eq key n ≡ str_eq name n =
          ap (λ m. str_eq m n) ((eq_iff key name).0 here) in
        rw here (
          rw alike (elim (Bool-cases (str_eq name n)) [
            | inl same ↦ rw same refl
            | inr other ↦ rw other refl
          ]))
    | inr there ↦ elim (Bool-cases (comes_first (compare name key))) [
      | inl front ↦ rw (there, front) refl
      | inr behind ↦
          rw (there, behind)
            (rw (get-insert_item name n item items) (elim (Bool-cases (str_eq name n)) [
              | inl same ↦
                  let apart : str_eq key n ≡ false =
                    ap (λ m. str_eq key m) (sym ((eq_iff name n).0 same)) ∙ there in
                  rw (same, apart) refl
              | inr other ↦ rw other refl
            ]))
    ]
  ]

  -- The last object of a name among those that were made, or the one from before.
  abbrev pub latest : (T → String) → String → List (Option T) → Option T → Option T
  latest name_of n [] o = o
  latest name_of n (none ∷ objects) o = latest name_of n objects o
  latest name_of n (some item ∷ objects) o =
      latest name_of n objects (if str_eq (name_of item) n then some item else o)

  -- The objects that were made.
  abbrev pub made : List (Option T) → ℕ
  made [] = 0
  made (none ∷ objects) = made objects
  made (some item ∷ objects) = made objects + 1

  -- load counts the objects that rows make, and after it each name has the last object that was made
  -- for it, or the one that it had.
  pub load-latest :
      (name_of : T → String) (objects : List (Option T)) (counter : ℕ) (items : Cache T)
      (n : String)
      → ((load name_of objects counter items).0 ≡ counter + made objects)
        × (get n (load name_of objects counter items).1 ≡ latest name_of n objects (get n items))
  unfolding load add
  load-latest name_of [] counter items n = (omega arith, refl)
  load-latest name_of (none ∷ objects) counter items n = load-latest name_of objects counter items n
  load-latest name_of (some item ∷ objects) counter items n =
      let (count, found) =
        load-latest name_of objects (counter + 1) (insert_item (name_of item) item items) n in
      (
        omega (arith, count),
        found ∙ ap (λ o. latest name_of n objects o) (get-insert_item (name_of item) n item items),
      )
