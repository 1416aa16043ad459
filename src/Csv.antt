-- ===== src/Csv.antt =====
-- src/tools/csvparser.h and src/tools/csvparser.cpp: the records of a CSV stream, read by a state
-- machine. A stream is the list of the characters that are left.
pub mod Quoted
pub mod RoundTrip
mod Tests
use rules_analyzer.Base.{
  ℕ, ◌==◌, Bool, true, false, not, ◌&&◌, if◌then◌else◌, List, [], ◌∷◌, ◌++◌, length, ltb, Outcome,
  ok, err, ◌>>=◌,
}
use rules_analyzer.Strutil.{Text}

abbrev pub line_feed : ℕ
line_feed = 10

abbrev pub carriage_return : ℕ
carriage_return = 13

pub record CsvParserOptions : Type 0 where
  pub quote_char : ℕ
  pub escape_char : ℕ
  pub separator_char : ℕ
  pub ms_double_quote : Bool
  pub strict_parsing : Bool

pub data ParserState : Type 0 where
  start_record start_field escaped_char in_field in_quoted_field : ParserState
  escape_in_quoted_field quote_in_quoted_field : ParserState

-- The three texts of std::runtime_error.
pub data CsvError : Type 0 where
  unexpected_end_of_line invalid_end_of_line : CsvError
  unexpected_character : ℕ → ℕ → CsvError

abbrev pub Result {ℓ} : Type ℓ → Type ℓ
Result A = Outcome CsvError A

-- The three arguments that `process_char` changes, and its result.
pub record Progress : Type 0 where
  pub state : ParserState
  pub field_builder : Text
  pub field_list : List Text
  pub eol : Bool

abbrev pub goto : ParserState → Progress → Progress
goto state p = record p { state = state }

abbrev pub push : ℕ → Progress → Progress
push c p = record p { field_builder = p.field_builder ++ c ∷ [] }

abbrev pub save_field : Progress → Progress
save_field p = record p { field_list = p.field_list ++ p.field_builder ∷ []; field_builder = [] }

abbrev pub ending : Progress → Progress
ending p = record p { eol = true }

module _ (options : CsvParserOptions) where
  open options use {quote_char, escape_char, separator_char, ms_double_quote, strict_parsing}

  -- The state START_FIELD.
  abbrev pub process_field : ℕ → Progress → Progress
  process_field c p =
      if c == line_feed
      then ending (goto start_record (save_field p))
      else if c == quote_char
      then goto in_quoted_field p
      else if c == escape_char
      then goto escaped_char p
      else if c == separator_char
      then save_field p
      else goto in_field (push c p)

  -- After an escape character: the character alone when it is special, else both. The code falls
  -- through to this after it has ended a record.
  abbrev pub push_escaped : ℕ → ParserState → Progress → Progress
  push_escaped c next p =
      if not (c == escape_char) && not (c == separator_char) && not (c == quote_char)
      then goto next (push c (push escape_char p))
      else goto next (push c p)

  abbrev pub process_escaped : ℕ → ParserState → Progress → Result Progress
  process_escaped c next p =
      if c == line_feed
      then (if not strict_parsing
          then ok (goto next (push c (ending (goto start_record (save_field p)))))
          else err unexpected_end_of_line)
      else ok (push_escaped c next p)

  abbrev pub process_in_field : ℕ → Progress → Progress
  process_in_field c p =
      if c == line_feed
      then ending (goto start_record (save_field p))
      else if c == escape_char
      then goto escaped_char p
      else if c == separator_char
      then goto start_field (save_field p)
      else push c p

  abbrev pub process_quoted : ℕ → Progress → Result Progress
  process_quoted c p =
      if c == line_feed
      then (if not strict_parsing then ok (ending (push c p)) else err unexpected_end_of_line)
      else if c == escape_char
      then ok (goto escape_in_quoted_field p)
      else if c == quote_char
      then ok (goto (if ms_double_quote then quote_in_quoted_field else in_field) p)
      else ok (push c p)

  abbrev pub process_quote : ℕ → Progress → Result Progress
  process_quote c p =
      if c == line_feed
      then ok (ending (goto start_record (save_field p)))
      else if c == quote_char
      then ok (goto in_quoted_field (push c p))
      else if c == separator_char
      then ok (goto start_field (save_field p))
      else if not strict_parsing
      then ok (goto in_field (push c p))
      else err (unexpected_character c quote_char)

  -- `process_char`. The first state calls itself once, as START_FIELD, and drops the result.
  unfoldable pub process_char : ℕ → Progress → Result Progress
  process_char c p = elim p.state [
    | start_record ↦
        if c == line_feed
        then ok (ending p)
        else ok (record (process_field c (goto start_field p)) { eol = false })
    | start_field ↦ ok (process_field c p)
    | escaped_char ↦ process_escaped c in_field p
    | in_field ↦ ok (process_in_field c p)
    | in_quoted_field ↦ process_quoted c p
    | escape_in_quoted_field ↦ process_escaped c in_quoted_field p
    | quote_in_quoted_field ↦ process_quote c p
  ]

  -- One character of the loop of `next_record`, with `cr_detected`.
  unfoldable pub process_next : Bool → ℕ → Progress → Result (Bool × Progress)
  unfolding process_char
  process_next cr_detected c p =
      if cr_detected
      then (if c == carriage_return
          then (process_char c p >>= λ q. ok (true, q))
          else if c == line_feed
          then (process_char c p >>= λ q. ok (false, q))
          else err invalid_end_of_line)
      else if c == carriage_return
      then ok (true, p)
      else (process_char c p >>= λ q. ok (false, q))

  -- At the end of the stream the state takes a last end of line, unless a record is to start.
  abbrev at_end : Progress → Result Progress
  at_end p = elim p.state [ start_record ↦ ok p | _ ↦ process_char line_feed p ]

  unfoldable pub process_stream : Bool → Text → Progress → Result (Progress × Text)
  unfolding process_next
  process_stream cr_detected [] p = at_end p >>= λ q. ok (q, [])
  process_stream cr_detected (c ∷ cs) p = process_next cr_detected c p >>= λ (cr, q). elim q.eol [
    | true ↦ ok (q, cs)
    | false ↦ process_stream cr cs q
  ]

  abbrev pub fresh_record : Progress
  fresh_record = record { state = start_record; field_builder = []; field_list = []; eol = false }

  -- `next_record`: whether the record has values, the values, and what is left of the stream.
  unfoldable pub next_record : Text → Result (Bool × List Text × Text)
  unfolding process_stream
  next_record stream = process_stream false stream fresh_record >>= λ (p, rest).
      ok (ltb 0 (length p.field_list), p.field_list, rest)
