-- ===== src/CsvReader/Tests.antt =====
-- A stream of two columns of which the second is selected first.
use rules_analyzer.Base.{ℕ, ◌≡◌, refl, true, false, List, [], ◌∷◌, some, ok}
use rules_analyzer.Strutil.{Text}
use rules_analyzer.Csv.{process_char, process_next, process_stream, next_record}
use rules_analyzer.CsvReader.{
  CsvColumn, CsvReader, reader_options, place_headers, new_reader, next_row,
}
use rules_analyzer.CsvReader.Rows.{at_index}
use rules_analyzer.CsvReader.Selected.{IsFirst, last_value, shown, new_reader-next_row}

-- Columns named b, with the default x, and a.
abbrev column_b : CsvColumn
column_b = record { name = 98 ∷ []; default_value = 120 ∷ []; is_optional = false }

abbrev column_a : CsvColumn
column_a = record { name = 97 ∷ []; default_value = []; is_optional = true }

abbrev both : List CsvColumn
both = column_b ∷ column_a ∷ []

-- Behind the header "A,b": the line "1,", an empty line, and the line "2,3".
abbrev sample_reader : CsvReader
sample_reader = record {
  columns = both;
  column_position = some 1 ∷ some 0 ∷ [];
  row_number = 1;
  eof = false;
  stream = 49 ∷ 44 ∷ 10 ∷ 10 ∷ 50 ∷ 44 ∷ 51 ∷ 10 ∷ [];
}

opened : new_reader both (65 ∷ 44 ∷ 98 ∷ 10 ∷ sample_reader.stream) ≡ ok sample_reader
unfolding new_reader place_headers next_record process_stream process_next process_char
opened = refl

first_record :
    next_record reader_options sample_reader.stream
    ≡ ok (true, (49 ∷ []) ∷ [] ∷ [], 10 ∷ 50 ∷ 44 ∷ 51 ∷ 10 ∷ [])
unfolding next_record process_stream process_next process_char
first_record = refl

header_record :
    next_record reader_options (65 ∷ 44 ∷ 98 ∷ 10 ∷ sample_reader.stream)
    ≡ ok (true, (65 ∷ []) ∷ (98 ∷ []) ∷ [], sample_reader.stream)
unfolding next_record process_stream process_next process_char
header_record = refl

new_reader-next_row_example :
    (r : CsvReader) × (row : List Text) × (new_reader both
        (65 ∷ 44 ∷ 98 ∷ 10 ∷ sample_reader.stream)
      ≡ ok r)
    × (r.stream ≡ sample_reader.stream)
    × (next_row false (record r { row_number = 1; stream = sample_reader.stream })
        ≡ ok (true, row, record r { row_number = 2; stream = 10 ∷ 50 ∷ 44 ∷ 51 ∷ 10 ∷ [] }))
    × ((k : ℕ) (column : CsvColumn)
        → at_index k both ≡ some column
        → IsFirst column.name k both
        → at_index k row
          ≡ some (
              shown column.is_optional column.default_value
                (last_value column.name ((65 ∷ []) ∷ (98 ∷ []) ∷ []) ((49 ∷ []) ∷ [] ∷ []))))
new_reader-next_row_example =
    new_reader-next_row both (65 ∷ 44 ∷ 98 ∷ 10 ∷ sample_reader.stream) sample_reader.stream
      sample_reader.stream (10 ∷ 50 ∷ 44 ∷ 51 ∷ 10 ∷ []) ((65 ∷ []) ∷ (98 ∷ []) ∷ [])
      ((49 ∷ []) ∷ [] ∷ []) 1 header_record first_record

-- At the empty line the reader takes the stream for ended: the line "2,3" is not read.
stopped :
    next_row false (record sample_reader { stream = 10 ∷ 50 ∷ 44 ∷ 51 ∷ 10 ∷ [] })
    ≡ ok (false, [] ∷ [] ∷ [], record sample_reader { eof = true; stream = 50 ∷ 44 ∷ 51 ∷ 10 ∷ [] })
unfolding next_row next_record process_stream process_next process_char
stopped = refl
