-- ===== src/Csv/Tests.antt =====
-- Records read from short streams.
use rules_analyzer.Base.{◌≡◌, refl, true, false, [], ◌∷◌, ◌++◌, ok}
use rules_analyzer.Strutil.{strings_join}
use rules_analyzer.Csv.Quoted.{IsDistinct}
use rules_analyzer.Csv.RoundTrip.{next_record-strings_join}
use rules_analyzer.Csv.{CsvParserOptions, process_char, process_next, process_stream, next_record}

-- A comma, and no doubled quotation marks.
abbrev comma_options : CsvParserOptions
comma_options = record {
  quote_char = 34;
  escape_char = 92;
  separator_char = 44;
  ms_double_quote = false;
  strict_parsing = true;
}

-- The reader takes a doubled quotation mark for two marks: a"b comes back as a"b".
doubled_quote :
    next_record comma_options (strings_join ((97 ∷ 34 ∷ 98 ∷ []) ∷ []) (44 ∷ []) true ++ 10 ∷ [])
    ≡ ok (true, (97 ∷ 34 ∷ 98 ∷ 34 ∷ []) ∷ [], [])
unfolding next_record process_stream process_next process_char strings_join
doubled_quote = refl

reader-IsDistinct : IsDistinct comma_options
reader-IsDistinct = record {
  marks = refl;
  escape_mark = refl;
  separator_mark = refl;
  separator_escape = refl;
  separator_feed = refl;
  separator_return = refl;
}

next_record-strings_join_example :
    next_record comma_options
      (strings_join ((97 ∷ 44 ∷ 98 ∷ []) ∷ [] ∷ []) (44 ∷ []) true ++ 10 ∷ 99 ∷ [])
    ≡ ok (true, (97 ∷ 44 ∷ 98 ∷ []) ∷ [] ∷ [], 99 ∷ [])
next_record-strings_join_example =
    next_record-strings_join comma_options reader-IsDistinct (97 ∷ 44 ∷ 98 ∷ []) ([] ∷ []) (99 ∷ [])
      refl
