-- ===== src/PolicyReader.antt =====
-- src/ostore/ruleobject.h and src/ostore/policyreader.cpp: a rule as it is read from a row of a policy.
use rules_analyzer.Base.{
  ℕ, zero, suc, ◌==◌, Bool, true, false, not, ◌&&◌, ◌||◌, if◌then◌else◌, List, [], ◌∷◌, map, length,
  Option, none, some, String, ok, ◌>>=◌, ℤ, pos, negsuc,
}
use rules_analyzer.Strutil.{Text, codes}
use rules_analyzer.Strutil.Case.{iequal}
use rules_analyzer.Strutil.Numbers.{str2i, str2b}
use rules_analyzer.Strutil.Spell.{spell}
use rules_analyzer.Split.{split}
use rules_analyzer.CsvReader.{CsvColumn, CsvReader, Result, next_row}

pub record RuleObject : Type 0 where
  pub row_number : ℕ
  pub id : ℕ
  pub name : String
  pub status : Text
  pub action : Text
  pub source_zones : List String
  pub destination_zones : List String
  pub source_addresses : List String
  pub negate_source_addresses : Bool
  pub destination_addresses : List String
  pub negate_destination_addresses : Bool
  pub services : List String
  pub applications : List String
  pub users : List String
  pub urls : List String

abbrev is_app_default : List String → Bool
is_app_default [] = false
is_app_default (service ∷ []) =
    iequal (codes service) (codes "application-default")
    || iequal (codes service) (codes "app-default")
is_app_default (service ∷ other ∷ services) = false

unfoldable pub default_app_services : RuleObject → Bool
unfolding iequal
default_app_services rule = is_app_default rule.services

-- A column that must be in the stream, and one that may be left out.
abbrev column : String → String → Bool → CsvColumn
column name default_value is_optional = record {
  name = codes name;
  default_value = codes default_value;
  is_optional = is_optional;
}

abbrev pub policy_columns : List CsvColumn
policy_columns =
    column "id" "" false
    ∷ column "name" "" true
    ∷ column "status" "enabled" true
    ∷ column "action" "" false
    ∷ column "src.zone" "any" true
    ∷ column "src.addr" "" false
    ∷ column "src.negate" "false" true
    ∷ column "dst.zone" "any" true
    ∷ column "dst.addr" "" false
    ∷ column "dst.negate" "false" true
    ∷ column "svc" "" false
    ∷ column "app" "any" true
    ∷ column "user" "any" true
    ∷ column "url" "any" true
    ∷ []

-- The parts of a value. The splitting always ends.
abbrev pub parts_of : Option (List Text) → List String
parts_of none = []
parts_of (some parts) = map spell parts

abbrev list_of : ℕ → Text → List String
list_of delim value = parts_of (split value delim)

-- The id of a row, when it is a positive number.
abbrev pub row_id : Option ℤ → Option ℕ
row_id (some (pos (suc n))) = some (suc n)
row_id (some (pos zero)) = none
row_id (some (negsuc n)) = none
row_id none = none

abbrev given {ℓ} : {A : Type ℓ} → Option A → Bool
given none = false
given (some a) = true

abbrev or_default {ℓ} : {A : Type ℓ} → A → Option A → A
or_default a none = a
or_default a (some b) = b

abbrev has_parts : List String → Bool
has_parts parts = not (length parts == 0)

-- `values[k]`: a row has a value for each column.
abbrev value_at : ℕ → List Text → Text
value_at k [] = []
value_at zero (v ∷ values) = v
value_at (suc k) (v ∷ values) = value_at k values

-- The rule of the values of a row. What the source leaves in the rule for an invalid value is a default
-- here: such a rule is not used.
unfoldable pub rule_of : ℕ → ℕ → List Text → RuleObject
unfolding str2i str2b split
rule_of delim row values = record {
  row_number = row;
  id = or_default 0 (row_id (str2i (value_at 0 values)));
  name = spell (value_at 1 values);
  status = value_at 2 values;
  action = value_at 3 values;
  source_zones = list_of delim (value_at 4 values);
  source_addresses = list_of delim (value_at 5 values);
  negate_source_addresses = or_default false (str2b (value_at 6 values));
  destination_zones = list_of delim (value_at 7 values);
  destination_addresses = list_of delim (value_at 8 values);
  negate_destination_addresses = or_default false (str2b (value_at 9 values));
  services = list_of delim (value_at 10 values);
  applications = list_of delim (value_at 11 values);
  users = list_of delim (value_at 12 values);
  urls = list_of delim (value_at 13 values);
}

-- `valid`: every check of the row is made.
unfoldable pub is_valid_row : List Text → RuleObject → Bool
unfolding str2i str2b
is_valid_row values rule =
    given (row_id (str2i (value_at 0 values)))
    && has_parts rule.source_zones
    && has_parts rule.source_addresses
    && given (str2b (value_at 6 values))
    && has_parts rule.destination_zones
    && has_parts rule.destination_addresses
    && given (str2b (value_at 9 values))
    && has_parts rule.services
    && has_parts rule.applications
    && has_parts rule.users
    && has_parts rule.urls

abbrev pub checked : List Text → RuleObject → Option RuleObject
checked values rule = if is_valid_row values rule then some rule else none

-- `next_row`: the rule of the next row, or nothing, when there is no row and when it is not valid.
unfoldable pub next_rule : ℕ → Bool → CsvReader → Result (Option RuleObject × CsvReader)
unfolding next_row rule_of is_valid_row
next_rule delim is_interrupted reader = next_row is_interrupted reader >>= λ (found, values, r).
    if found then ok (checked values (rule_of delim r.row_number values), r) else ok (none, r)
