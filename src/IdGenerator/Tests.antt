-- ===== src/IdGenerator/Tests.antt =====
-- A generator of two identifiers.
use rules_analyzer.Base.{◌≡◌, refl, [], ◌∷◌, ok, err, arith}
use rules_analyzer.Cache.{get}
use rules_analyzer.IdGenerator.{IdGenerator, id_overflow, new_generator, get_id}
use rules_analyzer.IdGenerator.Table.{IsWellFormed, Answers, get_id-Answers}

abbrev one_name : IdGenerator
one_name = record { ubound = 3; next_id = 2; id_table = ("lan", 1) ∷ [] }

abbrev two_names : IdGenerator
two_names = record { ubound = 3; next_id = 3; id_table = ("dmz", 2) ∷ ("lan", 1) ∷ [] }

first_name : get_id "lan" (new_generator 3) ≡ ok (1, one_name)
unfolding get_id
first_name = refl

second_name : get_id "dmz" one_name ≡ ok (2, two_names)
unfolding get_id
second_name = refl

-- The bound itself is not given.
third_name : get_id "wan" two_names ≡ err (id_overflow (record two_names { next_id = 4 }))
unfolding get_id
third_name = refl

new-IsWellFormed : IsWellFormed (new_generator 3)
unfolding get
new-IsWellFormed = record {
  starts = omega arith;
  small = omega arith;
  below = λ s id h. absurd (cc);
  apart = λ s t id h k. absurd (cc);
}

get_id-Answers_example : Answers "lan" (new_generator 3) 1 one_name
get_id-Answers_example =
    get_id-Answers "lan" (new_generator 3) 1 one_name new-IsWellFormed first_name
