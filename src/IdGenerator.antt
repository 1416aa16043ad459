-- ===== src/IdGenerator.antt =====
-- src/model/idgen.h and src/model/idgen.cpp: a table of identifiers, given in the order in which the
-- names are first asked for.
pub mod Table
mod Tests
use rules_analyzer.Base.{
  ℕ, ◌+◌, ◌%◌, ◌^◌, if◌then◌else◌, leb, [], ◌∷◌, Option, none, some, String, Outcome, ok, err,
}
use rules_analyzer.Cache.{Cache, get}

-- The name of a generator is used in messages only.
pub record IdGenerator : Type 0 where
  pub ubound : ℕ
  pub next_id : ℕ
  pub id_table : Cache ℕ

abbrev pub new_generator : ℕ → IdGenerator
new_generator ubound = record { ubound = ubound; next_id = 1; id_table = [] }

-- The overflow, with the generator as it is left: `_next_id` is raised in front of the test.
pub data IdFault : Type 0 where
  id_overflow : IdGenerator → IdFault

abbrev pub raised : IdGenerator → IdGenerator
raised g = record g { next_id = (g.next_id + 1) % 2 ^ 32 }

abbrev pub allocate : String → IdGenerator → Outcome IdFault (ℕ × IdGenerator)
allocate str g =
    if leb g.ubound g.next_id
    then err (id_overflow (raised g))
    else ok (g.next_id, record (raised g) { id_table = (str, g.next_id) ∷ g.id_table })

abbrev pub found_or : Option ℕ → String → IdGenerator → Outcome IdFault (ℕ × IdGenerator)
found_or none str g = allocate str g
found_or (some id) str g = ok (id, g)

unfoldable pub get_id : String → IdGenerator → Outcome IdFault (ℕ × IdGenerator)
unfolding get
get_id str g = found_or (get str g.id_table) str g
