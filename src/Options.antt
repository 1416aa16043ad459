-- ===== src/Options.antt =====
-- src/tools/options.h and src/model/moptions.h: sets of enumerators. A set is known by what it
-- contains.
use rules_analyzer.Base.{Bool, false, ◌||◌, List, [], ◌∷◌, if◌then◌else◌}

-- An enumeration with the comparison of its values.
pub record Enum (T : Type 0) : Type 0 where
  pub eq : T → T → Bool

pub record Options (T : Type 0) : Type 0 where
  pub contains : T → Bool

module _ {T : Type 0} where
  abbrev pub empty : Options T
  empty = record { contains = λ option. false }

module _ {T : Type 0} (e : Enum T) where
  abbrev pub add : Options T → T → Options T
  add o option = record { contains = λ t. e.eq option t || o.contains t }

  abbrev pub remove : Options T → T → Options T
  remove o option = record { contains = λ t. if e.eq option t then false else o.contains t }

  -- The constructor from a vector of options.
  abbrev pub of_list : List T → Options T
  of_list [] = empty
  of_list (t ∷ ts) = add (of_list ts) t

pub data ModelOption : Type 0 where
  application user url : ModelOption

abbrev pub ModelOptions : Type 0
ModelOptions = Options ModelOption
