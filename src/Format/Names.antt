-- ===== src/Format/Names.antt =====
-- Names with an index in brackets for the tests; the index is written with one mark for each unit.
use Prim.Native.String.{String, ◌++◌}
use Prim.Native.Nat.{ℕ, zero, suc}

abbrev tally : ℕ → String
tally zero = ""
tally (suc n) = "i" ++ tally n

abbrev pub tally_name : String → ℕ → String
tally_name name idx = name ++ ("[" ++ (tally idx ++ "]"))
