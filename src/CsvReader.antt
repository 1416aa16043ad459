-- ===== src/CsvReader.antt =====
-- src/tools/csvreader.h and src/tools/csvreader.cpp: rows of the selected columns of a CSV stream.
pub mod Rows
pub mod Selected
mod Tests
use rules_analyzer.Base.{
  ℕ, zero, suc, ◌+◌, ◌==◌, Bool, true, false, not, ◌&&◌, if◌then◌else◌, List, [], ◌∷◌, map, Option,
  none, some, Outcome, ok, err, ◌>>=◌,
}
use rules_analyzer.Strutil.{Text}
use rules_analyzer.Csv.{CsvParserOptions, CsvError, next_record}
use rules_analyzer.Match.{tolower, is_end}

-- The exceptions of the parser, and those of the reader.
pub data ReaderError : Type 0 where
  bad_record : CsvError → ReaderError
  header_not_found interrupted : ReaderError
  column_defined_twice : Text → ReaderError

abbrev pub Result {ℓ} : Type ℓ → Type ℓ
Result A = Outcome ReaderError A

abbrev pub parsed {ℓ} : {A : Type ℓ} → Outcome CsvError A → Result A
parsed (ok a) = ok a
parsed (err e) = err (bad_record e)

pub record CsvColumn : Type 0 where
  pub name : Text
  pub default_value : Text
  pub is_optional : Bool

-- The reader over what is left of its stream. A header that is not selected has no position.
pub record CsvReader : Type 0 where
  pub columns : List CsvColumn
  pub column_position : List (Option ℕ)
  pub row_number : ℕ
  pub eof : Bool
  pub stream : Text

abbrev pub reader_options : CsvParserOptions
reader_options = record {
  quote_char = 34;
  escape_char = 92;
  separator_char = 44;
  ms_double_quote = false;
  strict_parsing = true;
}

-- Equal for `stri_comparator`, which compares by strcasecmp.
abbrev pub same_name : Text → Text → Bool
same_name [] t = is_end t
same_name (c ∷ s) [] = false
same_name (c ∷ s) (d ∷ t) = tolower c == tolower d && same_name s t

-- The look up of a header in the map of column names, which keeps the first index of a name.
abbrev pub next_index : Option ℕ → Option ℕ
next_index none = none
next_index (some k) = some (suc k)

abbrev pub find_column : Text → List CsvColumn → Option ℕ
find_column header [] = none
find_column header (column ∷ columns) =
    if same_name column.name header then some 0 else next_index (find_column header columns)

-- `column_configured`: filled with false for each column, and never set.
abbrev pub is_configured : List Bool → ℕ → Bool
is_configured [] k = false
is_configured (b ∷ configured) zero = b
is_configured (b ∷ configured) (suc k) = is_configured configured k

abbrev pub place_header : List Bool → Text → Option ℕ → Result (Option ℕ)
place_header configured header none = ok none
place_header configured header (some k) =
    if is_configured configured k then err (column_defined_twice header) else ok (some k)

unfoldable pub place_headers : List CsvColumn → List Bool → List Text → Result (List (Option ℕ))
place_headers columns configured [] = ok []
place_headers columns configured (header ∷ headers) =
    place_header configured header (find_column header columns) >>= λ position.
    place_headers columns configured headers >>= λ positions. ok (position ∷ positions)

-- The constructor.
unfoldable pub new_reader : List CsvColumn → Text → Result CsvReader
unfolding place_headers
new_reader columns stream = parsed (next_record reader_options stream) >>= λ (found, headers, rest).
    if not found
    then err header_not_found
    else (place_headers columns (map (λ column. false) columns) headers >>= λ positions.
        ok (record {
          columns = columns;
          column_position = positions;
          row_number = 1;
          eof = false;
          stream = rest;
        }))

abbrev pub initial_value : CsvColumn → Text
initial_value column = if column.is_optional then column.default_value else []

-- The value that a column takes from a record.
abbrev pub cell : CsvColumn → Text → Text
cell column value = if not column.is_optional && is_end value then column.default_value else value

-- `values[k] = ...`, where the column with the index decides on an empty value.
abbrev pub set_value : List CsvColumn → ℕ → Text → List Text → List Text
set_value [] k value values = values
set_value (column ∷ columns) k value [] = []
set_value (column ∷ columns) zero value (v ∷ values) = cell column value ∷ values
set_value (column ∷ columns) (suc k) value (v ∷ values) = v ∷ set_value columns k value values

abbrev pub set_position : List CsvColumn → Option ℕ → Text → List Text → List Text
set_position columns none value values = values
set_position columns (some k) value values = set_value columns k value values

-- The loop over the values of a record. Values behind the last header are left.
unfoldable pub assign : List CsvColumn → List (Option ℕ) → List Text → List Text → List Text
assign columns positions [] values = values
assign columns [] (value ∷ values_left) values = values
assign columns (position ∷ positions) (value ∷ values_left) values =
    assign columns positions values_left (set_position columns position value values)

-- `next_row`: whether there is a row, its values, and the reader after it.
unfoldable pub next_row : Bool → CsvReader → Result (Bool × List Text × CsvReader)
unfolding assign
next_row is_interrupted r =
    if is_interrupted
    then err interrupted
    else if r.eof
    then ok (false, [], r)
    else (parsed (next_record reader_options r.stream) >>= λ (found, values, rest).
        let initial = map initial_value r.columns in
        if found
        then ok (
          true,
          assign r.columns r.column_position values initial,
          record r { row_number = r.row_number + 1; stream = rest },
        )
        else ok (false, initial, record r { eof = true; stream = rest }))
