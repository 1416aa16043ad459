-- ===== src/Csv/Quoted.antt =====
-- How CsvParser (src/tools/csvparser.cpp) goes through a field between quotation marks.
use mathlib.Core.List.{append-nil, append_assoc}
use rules_analyzer.Base.{
  ℕ, ◌==◌, ◌≡◌, refl, ap, ◌∙◌, Bool, true, false, not, ◌&&◌, ◌||◌, if◌then◌else◌, List, [], ◌∷◌,
  ◌++◌, all, arith, Bool-cases, inl, inr, ok, ==_iff,
}
use rules_analyzer.Strutil.{Text, quote_mark, double_quotes, quote}
use rules_analyzer.Csv.{
  CsvParserOptions, Progress, ParserState, in_quoted_field, quote_in_quoted_field, in_field,
  start_field, start_record, process_char, process_next, process_stream, line_feed, carriage_return,
  Result,
}

-- The options read quotation marks, and the other special characters are none of these.
pub record IsDistinct (options : CsvParserOptions) : Type 0 where
  pub marks : options.quote_char ≡ quote_mark
  pub escape_mark : (options.escape_char == quote_mark) ≡ false
  pub separator_mark : (options.separator_char == quote_mark) ≡ false
  pub separator_escape : (options.separator_char == options.escape_char) ≡ false
  pub separator_feed : (options.separator_char == line_feed) ≡ false
  pub separator_return : (options.separator_char == carriage_return) ≡ false

-- A character that a quoted field keeps: not an end of line, not the escape character, and a
-- quotation mark only when the parser takes two marks for one.
abbrev pub is_kept : CsvParserOptions → ℕ → Bool
is_kept options c =
    not (c == line_feed)
    && not (c == carriage_return)
    && not (c == options.escape_char)
    && (options.ms_double_quote || not (c == quote_mark))

abbrev pub is_kept_field : CsvParserOptions → Text → Bool
is_kept_field options = all (is_kept options)

module _ (options : CsvParserOptions) (d : IsDistinct options) where
  open options use {escape_char, separator_char, ms_double_quote}
  open d use {
    marks, escape_mark, separator_mark, separator_escape, separator_feed, separator_return,
  }

  abbrev pub at : ParserState → Text → List Text → Progress
  at state builder fields = record {
    state = state;
    field_builder = builder;
    field_list = fields;
    eol = false;
  }

  abbrev pub stream : Text → Progress → Result (Progress × Text)
  stream cs p = process_stream options false cs p

  -- A character that does not end the record is processed, and the stream goes on.
  goes_on :
      (c : ℕ) (cs : Text) (p q : Progress)
      → (c == carriage_return) ≡ false
      → process_char options c p ≡ ok q
      → q.eol ≡ false
      → stream (c ∷ cs) p ≡ stream cs q
  unfolding process_stream process_next
  goes_on c cs p q no_return e going = simp (no_return, e, going)

  -- A character that is kept goes to the field.
  kept_char :
      (c : ℕ) (cs builder : Text) (fields : List Text)
      → is_kept options c ≡ true
      → (c == quote_mark) ≡ false
      → stream (c ∷ cs) (at in_quoted_field builder fields)
        ≡ stream cs (at in_quoted_field (builder ++ c ∷ []) fields)
  unfolding process_char
  kept_char c cs builder fields h m =
      let other : (c == options.quote_char) ≡ false = rw marks m in
      let no_feed : (c == line_feed) ≡ false = ground arith in
      let no_escape : (c == escape_char) ≡ false = ground arith in
      goes_on c cs _ _ (ground arith) (rw (no_feed, no_escape, other) refl) refl

  -- Two quotation marks stand for one.
  two_marks :
      (cs builder : Text) (fields : List Text)
      → ms_double_quote ≡ true
      → stream (quote_mark ∷ quote_mark ∷ cs) (at in_quoted_field builder fields)
        ≡ stream cs (at in_quoted_field (builder ++ quote_mark ∷ []) fields)
  unfolding process_char
  two_marks cs builder fields doubles =
      let no_escape : (quote_mark == escape_char) ≡ false = ground (arith, escape_mark) in
      goes_on quote_mark (quote_mark ∷ cs) _ (at quote_in_quoted_field builder fields) refl
        (rw (marks, no_escape, doubles) refl) refl
      ∙ goes_on quote_mark cs _ _ refl (rw marks refl) refl

  -- The body of a quoted field.
  quoted_body :
      (s cs builder : Text) (fields : List Text)
      → is_kept_field options s ≡ true
      → stream (double_quotes s ++ cs) (at in_quoted_field builder fields)
        ≡ stream cs (at in_quoted_field (builder ++ s) fields)
  quoted_body [] cs builder fields h = rw append-nil refl
  quoted_body (c ∷ s) cs builder fields h = elim (Bool-cases (c == quote_mark)) [
    | inl mark ↦
        let same : c ≡ quote_mark = (==_iff c quote_mark).0 mark in
        let tail : is_kept_field options s ≡ true = ground arith in
        rw (mark, same)
          (two_marks (double_quotes s ++ cs) builder fields (ground arith)
            ∙ quoted_body s cs (builder ++ quote_mark ∷ []) fields tail
            ∙ rw append_assoc refl)
    | inr other ↦ rw other (
        kept_char c (double_quotes s ++ cs) builder fields (ground arith) other
        ∙ quoted_body s cs (builder ++ c ∷ []) fields (ground arith)
        ∙ rw append_assoc refl)
  ]

  -- The states in which a record or a field starts.
  abbrev pub start_of : Bool → ParserState
  start_of true = start_record
  start_of false = start_field

  open_field :
      (first : Bool) (cs : Text) (fields : List Text)
      → stream (quote_mark ∷ cs) (at (start_of first) [] fields)
        ≡ stream cs (at in_quoted_field [] fields)
  unfolding process_char
  open_field true cs fields = goes_on quote_mark cs _ _ refl (rw marks refl) refl
  open_field false cs fields = goes_on quote_mark cs _ _ refl (rw marks refl) refl

  -- The state behind a closing quotation mark.
  abbrev pub closed : Bool → ParserState
  closed doubles = if doubles then quote_in_quoted_field else in_field

  close_mark :
      (cs builder : Text) (fields : List Text)
      → stream (quote_mark ∷ cs) (at in_quoted_field builder fields)
        ≡ stream cs (at (closed ms_double_quote) builder fields)
  unfolding process_char
  close_mark cs builder fields =
      let no_escape : (quote_mark == escape_char) ≡ false = ground (arith, escape_mark) in
      goes_on quote_mark cs _ _ refl (rw (marks, no_escape) refl) refl

  pub next_field :
      (doubles : Bool) (cs builder : Text) (fields : List Text)
      → stream (separator_char ∷ cs) (at (closed doubles) builder fields)
        ≡ stream cs (at start_field [] (fields ++ builder ∷ []))
  unfolding process_char
  next_field doubles cs builder fields =
      goes_on separator_char cs _ _ separator_return (step doubles) refl
    where
      itself : (separator_char == separator_char) ≡ true
      itself = (==_iff separator_char separator_char).1 refl

      step :
          (doubles : Bool)
          → process_char options separator_char (at (closed doubles) builder fields)
            ≡ ok (at start_field [] (fields ++ builder ∷ []))
      step true = rw (separator_feed, marks, separator_mark, itself) refl
      step false = rw (separator_feed, separator_escape, itself) refl

  abbrev pub finished : List Text → Progress
  finished fields = record {
    state = start_record;
    field_builder = [];
    field_list = fields;
    eol = true;
  }

  pub end_line :
      (doubles : Bool) (cs builder : Text) (fields : List Text)
      → stream (line_feed ∷ cs) (at (closed doubles) builder fields)
        ≡ ok (finished (fields ++ builder ∷ []), cs)
  unfolding process_stream process_next process_char
  end_line true cs builder fields = refl
  end_line false cs builder fields = refl

  pub quoted_field :
      (first : Bool) (s cs : Text) (fields : List Text)
      → is_kept_field options s ≡ true
      → stream (quote s ++ cs) (at (start_of first) [] fields)
        ≡ stream cs (at (closed ms_double_quote) s fields)
  quoted_field first s cs fields h =
      open_field first ((double_quotes s ++ quote_mark ∷ []) ++ cs) fields
      ∙ ap (λ xs. stream xs (at in_quoted_field [] fields))
          (append_assoc (double_quotes s) (quote_mark ∷ []) cs)
      ∙ quoted_body s (quote_mark ∷ cs) [] fields h
      ∙ close_mark cs s fields
