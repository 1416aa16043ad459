-- ===== src/Csv/RoundTrip.antt =====
-- The records that TableWriter (src/model/tablewriter.cpp) writes, through strings_join with
-- quotation marks (src/tools/strutil.cpp), and that CsvParser reads back.
use mathlib.Core.List.{append-nil, append_assoc}
use rules_analyzer.Base.{
  ◌≡◌, refl, sym, ap, ◌∙◌, Bool, true, false, if◌then◌else◌, List, [], ◌∷◌, ◌++◌, all, arith, ok,
  ◌-◌, ◌<◌, length, ltb, lt→ltb, take,
}
use rules_analyzer.Strutil.{Text, quote, joined, strings_join}
use rules_analyzer.Csv.{CsvParserOptions, next_record, line_feed}
use rules_analyzer.Strutil.Last.{strip_last}
use rules_analyzer.Csv.Quoted.{
  IsDistinct, is_kept_field, at, stream, start_of, finished, quoted_field, next_field, end_line,
}

module _ (options : CsvParserOptions) (d : IsDistinct options) where
  open options use {separator_char, ms_double_quote}

  -- The line that is written of a field and more fields.
  abbrev line : Text → List Text → Text
  line s [] = quote s
  line s (t ∷ ts) = quote s ++ separator_char ∷ line t ts

  read_line :
      (first : Bool) (s : Text) (ts : List Text) (rest : Text) (fields : List Text)
      → all (is_kept_field options) (s ∷ ts) ≡ true
      → stream options d
          (line s ts ++ line_feed ∷ rest)
          (at options d (start_of options d first) [] fields)
        ≡ ok (finished options d (fields ++ s ∷ ts), rest)
  read_line first s [] rest fields h =
      quoted_field options d first s (line_feed ∷ rest) fields (ground arith)
      ∙ end_line options d ms_double_quote rest s fields
  read_line first s (t ∷ ts) rest fields h =
      ap (λ xs. stream options d xs (at options d (start_of options d first) [] fields))
        (append_assoc (quote s) (separator_char ∷ line t ts) (line_feed ∷ rest))
      ∙ quoted_field options d first s (separator_char ∷ (line t ts ++ line_feed ∷ rest)) fields
          (ground arith)
      ∙ next_field options d ms_double_quote (line t ts ++ line_feed ∷ rest) s fields
      ∙ read_line false t ts rest (fields ++ s ∷ []) (ground arith)
      ∙ rw append_assoc refl

  joined-line :
      (s : Text) (ts : List Text)
      → joined (separator_char ∷ []) true (s ∷ ts) ≡ line s ts ++ separator_char ∷ []
  joined-line s [] = append-nil (quote s ++ separator_char ∷ [])
  joined-line s (t ∷ ts) =
      let mark : Text = separator_char ∷ [] in
      ap (λ xs. quote s ++ mark ++ xs) (joined-line t ts)
      ∙ append_assoc (quote s) mark (line t ts ++ mark)
      ∙ sym (append_assoc (quote s) (separator_char ∷ line t ts) mark)

  length-line : (s : Text) (ts : List Text) → 0 < length (line s ts)
  length-line s [] = omega arith
  length-line s (t ∷ ts) = omega arith

  strings_join-line :
      (s : Text) (ts : List Text) → strings_join (s ∷ ts) (separator_char ∷ []) true ≡ line s ts
  unfolding strings_join
  strings_join-line s ts =
      ap (λ output. if ltb 1 (length output) then take (length output - 1) output else [])
        (joined-line s ts)
      ∙ strip_last (line s ts) separator_char (length-line s ts)

  -- A record of at least one field that is written between quotation marks, then an end of line,
  -- is read back as it was, and the stream goes on behind it, when each field holds only
  -- characters that are kept: no end of line, no escape character, and a quotation mark only if
  -- the parser takes two marks for one.
  pub next_record-strings_join :
      (s : Text) (ts : List Text) (rest : Text)
      → all (is_kept_field options) (s ∷ ts) ≡ true
      → next_record options (strings_join (s ∷ ts) (separator_char ∷ []) true ++ line_feed ∷ rest)
        ≡ ok (true, s ∷ ts, rest)
  unfolding next_record
  next_record-strings_join s ts rest h =
      let some_field : ltb 0 (length (s ∷ ts)) ≡ true = lt→ltb _ _ (omega arith) in
      rw (strings_join-line s ts, read_line true s ts rest [] h, some_field) refl
