-- ===== src/CsvReader/Selected.antt =====
-- What the rows of a reader hold: of each selected column, the last value of the record under a
-- header of its name, whichever the case of the letters.
use rules_analyzer.Base.{
  ℕ, zero, suc, ◌+◌, ◌==◌, ◌≡◌, refl, ap, ◌∙◌, Bool, true, false, ◌&&◌, if◌then◌else◌, List, [],
  ◌∷◌, map, Option, none, some, arith, ok, Bool-cases, inl, inr,
}
use rules_analyzer.Strutil.{Text}
use rules_analyzer.Match.{tolower}
use rules_analyzer.Csv.{next_record}
use rules_analyzer.CsvReader.{
  CsvColumn, CsvReader, reader_options, initial_value, cell, same_name, next_index, find_column,
  assign, new_reader, next_row,
}
use rules_analyzer.CsvReader.Rows.{
  at_index, is_at, latest, assign_lem, at_index-map, place_headers-find_column,
}

abbrev text_eq : Text → Text → Bool
text_eq [] [] = true
text_eq [] (d ∷ t) = false
text_eq (c ∷ s) [] = false
text_eq (c ∷ s) (d ∷ t) = c == d && text_eq s t

-- Two names are alike when their lower case letters are the same text.
abbrev pub alike : Text → Text → Bool
alike s t = text_eq (map tolower s) (map tolower t)

-- The last value of a record that stands under a header like a name.
abbrev later : Option Text → Option Text → Option Text
later none v = v
later (some w) v = some w

abbrev pub last_value : Text → List Text → List Text → Option Text
last_value name [] values = none
last_value name (header ∷ headers) [] = none
last_value name (header ∷ headers) (value ∷ values) =
    later (last_value name headers values) (if alike name header then some value else none)

-- A column that is not optional shows its default in place of an empty value, and nothing when the
-- record has no value for it. An optional column shows its default only in the latter case.
abbrev pub shown : Bool → Text → Option Text → Text
shown true default none = default
shown true default (some value) = value
shown false default none = []
shown false default (some []) = default
shown false default (some (c ∷ s)) = c ∷ s

-- No column in front of an index has a name like the given one.
abbrev pub IsFirst : Text → ℕ → List CsvColumn → Type 0
IsFirst name zero columns = Unit
IsFirst name (suc k) [] = Unit
IsFirst name (suc k) (column ∷ columns) = (alike column.name name ≡ false) × IsFirst name k columns

same_name_lem : (s t : Text) → same_name s t ≡ alike s t
same_name_lem [] [] = refl
same_name_lem [] (d ∷ t) = refl
same_name_lem (c ∷ s) [] = refl
same_name_lem (c ∷ s) (d ∷ t) = rw (same_name_lem s t) refl

text_eq-other : (r s t : Text) → text_eq r s ≡ true → text_eq r t ≡ false → text_eq s t ≡ false
text_eq-other [] [] t e f = f
text_eq-other [] (d ∷ s) t e f = cc
text_eq-other (c ∷ r) [] t e f = cc
text_eq-other (c ∷ r) (d ∷ s) [] e f = refl
text_eq-other (c ∷ r) (d ∷ s) (b ∷ t) e f = elim (Bool-cases (text_eq r t)) [
  | inl rest ↦ ground arith
  | inr rest ↦ ground (arith, text_eq-other r s t (ground arith) rest)
]

text_eq_sym : (s t : Text) → text_eq s t ≡ text_eq t s
text_eq_sym [] [] = refl
text_eq_sym [] (d ∷ t) = refl
text_eq_sym (c ∷ s) [] = refl
text_eq_sym (c ∷ s) (d ∷ t) = ground (arith, text_eq_sym s t)

is_at-next_index : (k : ℕ) (p : Option ℕ) → is_at (suc k) (next_index p) ≡ is_at k p
is_at-next_index k none = refl
is_at-next_index k (some j) = ground arith

is_at_zero-next_index : (p : Option ℕ) → is_at 0 (next_index p) ≡ false
is_at_zero-next_index none = refl
is_at_zero-next_index (some j) = ground arith

-- A header goes to the first column of its name.
is_at-find_column :
    (header : Text) (k : ℕ) (columns : List CsvColumn) (column : CsvColumn)
    → at_index k columns ≡ some column
    → IsFirst column.name k columns
    → is_at k (find_column header columns) ≡ alike column.name header
is_at-find_column header k [] column e first = cc
is_at-find_column header zero (d ∷ columns) column e first =
    let same : d ≡ column = cc in
    ap (λ c. is_at 0 (find_column header (c ∷ columns))) same
    ∙ elim (Bool-cases (alike column.name header)) [
      | inl hit ↦ rw (same_name_lem column.name header, hit) refl
      | inr miss ↦
          rw (same_name_lem column.name header, miss)
            (is_at_zero-next_index (find_column header columns))
    ]
is_at-find_column header (suc k) (d ∷ columns) column e first =
    elim (Bool-cases (alike d.name header)) [
      | inl hit ↦
          let apart : alike header column.name ≡ false =
            text_eq-other (map tolower d.name) (map tolower header) (map tolower column.name) hit
              first.0 in
          let other : alike column.name header ≡ false =
            text_eq_sym (map tolower column.name) (map tolower header) ∙ apart in
          rw (same_name_lem d.name header, hit, other) (ground arith)
      | inr miss ↦
          rw (same_name_lem d.name header, miss)
            (is_at-next_index k (find_column header columns)
              ∙ is_at-find_column header k columns column e first.1)
    ]

abbrev value_or : (Text → Text) → Text → Option Text → Text
value_or f v none = v
value_or f v (some value) = f value

value_or-later :
    (f : Text → Text) (v value : Text) (hit : Bool) (o : Option Text)
    → value_or f (if hit then f value else v) o
      ≡ value_or f v (later o (if hit then some value else none))
value_or-later f v value true none = refl
value_or-later f v value false none = refl
value_or-later f v value hit (some w) = refl

latest-last_value :
    (k : ℕ) (f : Text → Text) (columns : List CsvColumn) (column : CsvColumn)
    (headers values : List Text) (v : Text)
    → at_index k columns ≡ some column
    → IsFirst column.name k columns
    → latest k f (map (λ header. find_column header columns) headers) values v
      ≡ value_or f v (last_value column.name headers values)
latest-last_value k f columns column [] [] v e first = refl
latest-last_value k f columns column [] (value ∷ values) v e first = refl
latest-last_value k f columns column (header ∷ headers) [] v e first = refl
latest-last_value k f columns column (header ∷ headers) (value ∷ values) v e first =
    rw (is_at-find_column header k columns column e first) (
      latest-last_value k f columns column headers values _ e first
      ∙ value_or-later f v value (alike column.name header) (last_value column.name headers values))

shown_lem :
    (optional : Bool) (name default : Text) (o : Option Text)
    → value_or
        (cell (record { name = name; default_value = default; is_optional = optional }))
        (initial_value (record { name = name; default_value = default; is_optional = optional }))
        o
      ≡ shown optional default o
shown_lem true name default none = refl
shown_lem true name default (some value) = refl
shown_lem false name default none = refl
shown_lem false name default (some []) = refl
shown_lem false name default (some (c ∷ s)) = refl

-- On a stream that begins with a record of headers the constructor makes a reader, which stands
-- behind that record; no header is refused, not even one that names a column twice. From any place
-- of the stream where a record begins, `next_row` of that reader answers with a row and with the
-- reader behind the record, its row counted. At each column that is the first of its name, in
-- either case, the row holds the last value of the record that stands under a header of that name.
-- Where there is none it holds the default of an optional column, and nothing of another; a column
-- that is not optional has its default in place of an empty value.
pub new_reader-next_row :
    (columns : List CsvColumn) (stream rest place rest_left : Text) (headers values : List Text)
    (row_number : ℕ)
    → next_record reader_options stream ≡ ok (true, headers, rest)
    → next_record reader_options place ≡ ok (true, values, rest_left)
    → (r : CsvReader) × (row : List Text) × (new_reader columns stream ≡ ok r)
      × (r.stream ≡ rest)
      × (next_row false (record r { row_number = row_number; stream = place })
          ≡ ok (true, row, record r { row_number = row_number + 1; stream = rest_left }))
      × ((k : ℕ) (column : CsvColumn)
          → at_index k columns ≡ some column
          → IsFirst column.name k columns
          → at_index k row
            ≡ some (
                shown column.is_optional column.default_value
                  (last_value column.name headers values)))
unfolding new_reader next_row
new_reader-next_row columns stream rest place rest_left headers values row_number h e =
    let positions = map (λ header. find_column header columns) headers in
    let r : CsvReader = record {
      columns = columns;
      column_position = positions;
      row_number = 1;
      eof = false;
      stream = rest;
    } in
    (
      r,
      assign columns positions values (map initial_value columns),
      rw (h, place_headers-find_column columns headers) refl,
      refl,
      rw e refl,
      λ k column at first.
          assign_lem k columns column positions values _ _ at
            (at_index-map initial_value k columns column at)
          ∙ ap some (
              latest-last_value k (cell column) columns column headers values (initial_value column)
                at first
              ∙ shown_lem column.is_optional column.name column.default_value _),
    )
