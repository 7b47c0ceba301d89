-- ===== src/Message/Write/ReadBack.antt =====
-- c_src/parser.cc: `Parse` on a message that is written from its parts.
use elixir_sippet.Base.Yields.{fold_results}
use elixir_sippet.Base.{
  ℕ, true, not, List, [], ◌∷◌, ◌++◌, map, some, Bytes, All, All-append, All-map, Result, ok, err,
  ◌>>=◌, ◌≡◌, ◌≢◌, refl, ◌∙◌, arith,
}
use elixir_sippet.Iterators.Headers.{HeaderLine}
use elixir_sippet.Message.Assemble.Folding.{
  crlf, assemble_raw_headers-crlf, assemble_raw_headers-fold,
}
use elixir_sippet.Message.Assemble.{is_break, assemble_raw_headers}
use elixir_sippet.Message.Header.{parse_header}
use elixir_sippet.Message.WellFormed.{parse_headers-fold}
use elixir_sippet.Message.Write.Headers.{IsWritten, All-Unfolded, split_headers-lines}
use elixir_sippet.Message.Write.Lines.{
  OneLine, assemble_raw_headers-lines, lines_text-no_return, All-OneLine,
}
use elixir_sippet.Message.Write.{lines_text, header_text, message_text}
use elixir_sippet.Message.{
  Headers, Reply, ok_message, error_tuple, bare_atom, add_header, parse_headers, skip_char,
  skip_line_break, parse_start_line, parse_input, parse,
}
use elixir_sippet.StartLine.{StartLine, find_line_end}
use elixir_sippet.Tokenizer.Span.{span-append}
use elixir_sippet.Tokenizer.{finds}
use elixir_sippet.Trim.Trimmed.{EndsOutside}
use elixir_sippet.Ascii.{is_lws}
use elixir_sippet.Value.{Runtime}

-- The headers parsed in turn and put into an empty map, up to the first error.
abbrev pub add_headers : Runtime → List HeaderLine → Result Headers
add_headers vm hs =
    fold_results
      (λ h headers. parse_header vm h.name h.values >>= λ header. add_header header headers) hs []

-- What is returned for a start line and headers.
abbrev pub reply_for : Result StartLine → Result Headers → Reply
reply_for (err reason) headers = bare_atom reason
reply_for (ok start_line) (err reason) = error_tuple reason
reply_for (ok start_line) (ok headers) =
    ok_message (record { start_line = start_line; headers = headers })

parse_input-reply_for :
    (vm : Runtime) (input : Bytes)
    → parse_input vm input
      ≡ reply_for
          (parse_start_line vm (find_line_end input).0)
          (parse_headers vm (skip_line_break (find_line_end input).1))
unfolding parse_input
parse_input-reply_for vm input =
    reply (parse_start_line vm (find_line_end input).0)
      (parse_headers vm (skip_line_break (find_line_end input).1))
  where
    reply :
        (start : Result StartLine) (headers : Result Headers)
        → elim start [
          | err reason ↦ bare_atom reason
          | ok start_line ↦ elim headers [
            | err reason ↦ error_tuple reason
            | ok headers ↦ ok_message (record { start_line = start_line; headers = headers })
          ]
        ]
          ≡ reply_for start headers
    reply (err reason) headers = refl
    reply (ok start) (err reason) = refl
    reply (ok start) (ok headers) = refl

find_line_end_line :
    (line rest : Bytes) → OneLine line → find_line_end (line ++ b'\n' ∷ rest) ≡ (line, b'\n' ∷ rest)
unfolding find_line_end
find_line_end_line line rest one =
    span-append (λ c. not (finds (b'\r' ∷ b'\n' ∷ []) c)) line (b'\n' ∷ rest)
      (All-map plain line one) (unfold finds in refl)
  where
    plain : (c : ℕ) → not (is_break c) ≡ true → not (finds (b'\r' ∷ b'\n' ∷ []) c) ≡ true
    plain c h = unfold finds in ground arith

-- Behind the lines that are put together, the first line and the headers are parsed.
parse_input_lines :
    (vm : Runtime) (line : Bytes) (hs : List HeaderLine)
    → OneLine line
    → All IsWritten hs
    → parse_input vm (lines_text (line ∷ map header_text hs))
      ≡ reply_for (parse_start_line vm line) (add_headers vm hs)
parse_input_lines vm line hs one h =
    let rest = lines_text (map header_text hs) in
    let skipped : skip_line_break (b'\n' ∷ rest) ≡ rest =
      unfold skip_line_break skip_char in refl in
    parse_input-reply_for vm (line ++ b'\n' ∷ rest)
    ∙ rw
        (
          find_line_end_line line rest one,
          skipped,
          parse_headers-fold vm rest,
          split_headers-lines hs h,
        )
        refl

assemble_message :
    (line : Bytes) (hs : List HeaderLine)
    → OneLine line
    → All IsWritten hs
    → assemble_raw_headers (crlf (message_text line hs))
      ≡ some (lines_text (line ∷ map header_text hs))
assemble_message line hs one h =
    let unfolded = All-Unfolded hs h in
    let lines = line ∷ map header_text hs in
    assemble_raw_headers-crlf (message_text line hs) (
      All-append (λ c. c ≢ b'\r') (lines_text lines) (b'\n' ∷ [])
        (lines_text-no_return lines (one, All-OneLine (map header_text hs) unfolded))
        (omega arith, tt))
    ∙ assemble_raw_headers-lines line (map header_text hs) one unfolded

-- A message that is written from a first line without line breaks, and from headers whose names are
-- tokens and whose values are on one line and neither start nor end with a blank, is taken apart
-- into that line and those headers, in order: what is returned is what the first line and the
-- headers give.
pub parse-message_text :
    (vm : Runtime) (line : Bytes) (hs : List HeaderLine)
    → OneLine line
    → All IsWritten hs
    → parse vm (crlf (message_text line hs))
      ≡ reply_for (parse_start_line vm line) (add_headers vm hs)
unfolding parse
parse-message_text vm line hs one h =
    rw (parse, assemble_message line hs one h) (parse_input_lines vm line hs one h)

-- `Parse` returns the same for a text without carriage returns and for the text with one in front of
-- each line feed.
parse-crlf : (vm : Runtime) (s : Bytes) → All (λ c. c ≢ b'\r') s → parse vm (crlf s) ≡ parse vm s
unfolding parse
parse-crlf vm s h = rw (parse, assemble_raw_headers-crlf s h) refl

-- `Parse` returns the same for a text and for the text folded inside a line, with a line break in
-- front of a blank, or of a NUL, and behind a character that is no line break.
pub parse-fold :
    (vm : Runtime) (a : Bytes) (c : ℕ) (s : Bytes)
    → EndsOutside is_break a
    → is_lws c ≡ true
    → parse vm (a ++ b'\r' ∷ b'\n' ∷ c ∷ s) ≡ parse vm (a ++ c ∷ s)
unfolding parse
parse-fold vm a c s h b = rw (parse, assemble_raw_headers-fold a c s h b) refl
