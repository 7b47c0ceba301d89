-- ===== src/Tests/Writing.antt =====
-- c_src/parser.cc: `Parse` on messages that are written from their parts.
use elixir_sippet.Base.{
  List, [], ◌∷◌, Bytes, codes, ok, traverse, while_next, All, ◌≡◌, refl, arith,
}
use elixir_sippet.Iterators.Headers.{HeaderLine, headers_next}
use elixir_sippet.Iterators.Split.{split_headers}
use elixir_sippet.Message.Accepts.{parse-accepts}
use elixir_sippet.Message.Assemble.Folding.{crlf}
use elixir_sippet.Message.Header.{parse_header}
use elixir_sippet.Message.Merge.{values_of, merge, parse_headers-merge}
use elixir_sippet.Message.Unordered.{entries, parse_headers-unordered}
use elixir_sippet.Message.Write.Headers.{IsWritten}
use elixir_sippet.Message.Write.Lines.{OneLine}
use elixir_sippet.Message.Write.ReadBack.{add_headers, reply_for, parse-message_text, parse-fold}
use elixir_sippet.Message.Write.{message_text}
use elixir_sippet.Message.{
  Message, ok_message, Headers, get_header, add_header, parse_headers, parse_start_line, parse,
}
use elixir_sippet.StartLine.{StartLine, request_line}
use elixir_sippet.Tests.{vm}
use elixir_sippet.Value.{Name, atom, string, binary, Value, many}

abbrev line : Bytes
line = codes "OPTIONS sip:a SIP/2.0"

abbrev start : StartLine
start = request_line (atom (codes "options")) (codes "sip:a") (2, 0)

abbrev header : Bytes → Bytes → HeaderLine
header name values = record { name = name; values = values }

abbrev written : List HeaderLine
written =
    header (codes "Allow") (codes "INVITE")
    ∷ header (codes "X-a") (codes "b")
    ∷ header (codes "allow") (codes "ACK")
    ∷ []

abbrev token_term : Name → Bytes → Name × Value
token_term name token = (name, many (binary token ∷ []))

abbrev parsed : List (Name × Value)
parsed =
    token_term (atom (codes "allow")) (codes "INVITE")
    ∷ token_term (string (codes "X-a")) (codes "b")
    ∷ token_term (atom (codes "allow")) (codes "ACK")
    ∷ []

line-OneLine : OneLine line
line-OneLine = ground arith

written-IsWritten : All IsWritten written
unfolding elixir_sippet.Ascii.is_token_char elixir_sippet.Ascii.all_token_chars
    elixir_sippet.Ascii.is_token elixir_sippet.Ascii.is_lws
written-IsWritten = (
  (refl, ground arith, refl, refl),
  ((refl, ground arith, refl, refl), ((refl, ground arith, refl, refl), tt)),
)

run_start : parse_start_line vm line ≡ ok start
unfolding elixir_sippet.Ascii.to_lower_ascii elixir_sippet.Ascii.lower_case
    elixir_sippet.Ascii.lower_case_equals_ascii elixir_sippet.Tokenizer.finds
    elixir_sippet.Tokenizer.span elixir_sippet.Tokenizer.skip elixir_sippet.Tokenizer.skip_lws
    elixir_sippet.Tokenizer.skip_to elixir_sippet.Tokenizer.skip_one elixir_sippet.Tokenizer.skip_n
    elixir_sippet.Tokenizer.first_n elixir_sippet.Trim.trim_left elixir_sippet.StartLine.has_prefix
    elixir_sippet.StartLine.is_status_line elixir_sippet.StartLine.atom_name
    elixir_sippet.StartLine.existing_atom_or_string elixir_sippet.StartLine.version_number
    elixir_sippet.StartLine.parse_version elixir_sippet.StartLine.parse_request_line
    elixir_sippet.HeaderList.header_list elixir_sippet.HeaderList.loaded_atoms parse_start_line
run_start = refl

run_written : traverse (λ (h : HeaderLine). parse_header vm h.name h.values) written ≡ ok parsed
unfolding elixir_sippet.Ascii.is_lws elixir_sippet.Ascii.to_lower_ascii
    elixir_sippet.Ascii.lower_case elixir_sippet.Tokenizer.finds elixir_sippet.Tokenizer.span
    elixir_sippet.Tokenizer.skip elixir_sippet.Tokenizer.skip_lws
    elixir_sippet.Tokenizer.skip_not_in elixir_sippet.StringTokenizer.advance_quoted
    elixir_sippet.StringTokenizer.advance_one elixir_sippet.StringTokenizer.full_take
    elixir_sippet.StringTokenizer.full_from elixir_sippet.StringTokenizer.full_get_next
    elixir_sippet.StringTokenizer.get_next elixir_sippet.Trim.trim_right
    elixir_sippet.Trim.trim_left elixir_sippet.Trim.trim_lws elixir_sippet.Iterators.trimmed_value
    elixir_sippet.Iterators.quoted_values_next elixir_sippet.Iterators.values_next
    elixir_sippet.Field.parse_token elixir_sippet.Format.collect_items
    elixir_sippet.Format.multiple_tokens elixir_sippet.Format.Single.single_token
    elixir_sippet.StartLine.atom_name elixir_sippet.HeaderList.header_list
    elixir_sippet.HeaderList.find_parser elixir_sippet.HeaderList.find_alias
    elixir_sippet.HeaderList.loaded_atoms elixir_sippet.Message.Header.parse_values
    elixir_sippet.Message.Header.alias_of elixir_sippet.Message.Header.header_name_term
    elixir_sippet.Message.Header.header_parser elixir_sippet.Base.while_next
    elixir_sippet.Base.find_next parse_header
run_written = refl

parse-accepts_example :
    (m : Message) × (parse vm (crlf (message_text line written)) ≡ ok_message m)
    × (m.start_line ≡ start)
    × ((name : Name) → get_header name m.headers ≡ merge (values_of name parsed))
parse-accepts_example =
    parse-accepts vm line start written parsed line-OneLine written-IsWritten run_start run_written
      tt

parse-message_text_example :
    parse vm (crlf (message_text line written))
    ≡ reply_for (parse_start_line vm line) (add_headers vm written)
parse-message_text_example = parse-message_text vm line written line-OneLine written-IsWritten

parse-fold_example :
    parse vm (codes "A b SIP/2.0\r\nx: y\r\n z") ≡ parse vm (codes "A b SIP/2.0\r\nx: y z")
unfolding elixir_sippet.Ascii.is_lws
parse-fold_example = parse-fold vm (codes "A b SIP/2.0\r\nx: y") b' ' (codes "z") refl refl

-- The same headers with another one first.
abbrev text : Bytes
text = codes "Allow: INVITE\nX-a: b\nallow: ACK\n"

abbrev other_text : Bytes
other_text = codes "X-a: b\nAllow: INVITE\nallow: ACK\n"

abbrev other_parsed : List (Name × Value)
other_parsed =
    token_term (string (codes "X-a")) (codes "b")
    ∷ token_term (atom (codes "allow")) (codes "INVITE")
    ∷ token_term (atom (codes "allow")) (codes "ACK")
    ∷ []

abbrev allowed : Name × Value
allowed = (atom (codes "allow"), many (binary (codes "INVITE") ∷ binary (codes "ACK") ∷ []))

abbrev extension : Name × Value
extension = token_term (string (codes "X-a")) (codes "b")

run_texts :
    (parse_headers vm text ≡ ok (allowed ∷ extension ∷ []))
    × (parse_headers vm other_text ≡ ok (extension ∷ allowed ∷ []))
    × (traverse (λ (h : HeaderLine). parse_header vm h.name h.values) (split_headers text)
        ≡ ok parsed)
    × (traverse (λ (h : HeaderLine). parse_header vm h.name h.values) (split_headers other_text)
        ≡ ok other_parsed)
unfolding elixir_sippet.Ascii.is_lws elixir_sippet.Ascii.to_lower_ascii
    elixir_sippet.Ascii.lower_case elixir_sippet.Ascii.is_token_char
    elixir_sippet.Ascii.all_token_chars elixir_sippet.Ascii.is_token elixir_sippet.Tokenizer.finds
    elixir_sippet.Tokenizer.span elixir_sippet.Tokenizer.skip elixir_sippet.Tokenizer.skip_lws
    elixir_sippet.Tokenizer.skip_one elixir_sippet.Tokenizer.skip_not_in
    elixir_sippet.StringTokenizer.advance_quoted elixir_sippet.StringTokenizer.advance_one
    elixir_sippet.StringTokenizer.full_take elixir_sippet.StringTokenizer.full_from
    elixir_sippet.StringTokenizer.full_get_next elixir_sippet.StringTokenizer.quick_get_next
    elixir_sippet.StringTokenizer.Fields.fields elixir_sippet.StringTokenizer.get_next
    elixir_sippet.Trim.trim_right elixir_sippet.Trim.trim_left elixir_sippet.Trim.trim_lws
    elixir_sippet.Iterators.Headers.starts_badly elixir_sippet.Iterators.Headers.header_line
    elixir_sippet.Iterators.Headers.headers_next elixir_sippet.Iterators.trimmed_value
    elixir_sippet.Iterators.quoted_values_next elixir_sippet.Iterators.values_next
    elixir_sippet.Field.parse_token elixir_sippet.Format.collect_items
    elixir_sippet.Format.multiple_tokens elixir_sippet.Format.Single.single_token
    elixir_sippet.StartLine.atom_name elixir_sippet.HeaderList.header_list
    elixir_sippet.HeaderList.find_parser elixir_sippet.HeaderList.find_alias
    elixir_sippet.HeaderList.loaded_atoms elixir_sippet.Message.Header.parse_values
    elixir_sippet.Message.Header.alias_of elixir_sippet.Message.Header.header_name_term
    elixir_sippet.Message.Header.header_parser elixir_sippet.Message.get_header
    elixir_sippet.Message.put_header elixir_sippet.Message.add_values add_header parse_headers
    elixir_sippet.Value.same_name elixir_sippet.Base.while_next elixir_sippet.Base.find_next
    parse_header
run_texts = (refl, refl, refl, refl)

same_values : (name : Name) → values_of name parsed ≡ values_of name other_parsed
unfolding elixir_sippet.Value.same_name
same_values (atom a) = refl
same_values (string a) = refl

parse_headers-merge_example :
    (ps : List (Name × Value)) × (traverse
        (λ (h : HeaderLine). parse_header vm h.name h.values)
        (split_headers text)
      ≡ ok ps)
    × ((name : Name) → get_header name (allowed ∷ extension ∷ []) ≡ merge (values_of name ps))
parse_headers-merge_example = parse_headers-merge vm text (allowed ∷ extension ∷ []) run_texts.0

parse_headers-unordered_example :
    entries (allowed ∷ extension ∷ []) ≡ entries (extension ∷ allowed ∷ [])
parse_headers-unordered_example =
    parse_headers-unordered vm text other_text parsed other_parsed (allowed ∷ extension ∷ [])
      (extension ∷ allowed ∷ []) run_texts.2 run_texts.3 same_values run_texts.0 run_texts.1
