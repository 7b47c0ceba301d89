-- ===== src/Tests/Messages.antt =====
-- c_src/parser.cc: `Parse` and its parts on concrete messages.
use elixir_sippet.Ascii.{is_lws, lower_case}
use elixir_sippet.Base.Int.{pos}
use elixir_sippet.Base.{true, false, [], ◌∷◌, some, Bytes, codes, Ensures, ◌≡◌, refl}
use elixir_sippet.HeaderList.{header_list, loaded_atoms}
use elixir_sippet.HeaderList
use elixir_sippet.Iterators.Headers.{headers_next}
use elixir_sippet.Message.Assemble.Join.{join, assemble_raw_headers-join}
use elixir_sippet.Message.Assemble.Output.{Fits, assemble_raw_headers-Fits}
use elixir_sippet.Message.Assemble.{assemble_raw_headers}
use elixir_sippet.Message.Errors.{is_among, start_line_errors, parse-bare_atom}
use elixir_sippet.Message.Header.Conforms.{Conforms, parse_values-Conforms}
use elixir_sippet.Message.Header.{parse_values, header_parser, parse_header}
use elixir_sippet.Message.Sound.{IsStartLine, parse_sound}
use elixir_sippet.Message.WellFormed.{IsWellFormed, add_header-IsWellFormed}
use elixir_sippet.Message.{
  Message, ok_message, bare_atom, Headers, get_header, put_header, add_values, add_header,
  parse_headers, parse,
}
use elixir_sippet.Number.{string_to_int}
use elixir_sippet.StartLine.{
  request_line, existing_atom_or_string, parse_version, parse_status_line, parse_request_line,
}
use elixir_sippet.StringTokenizer.{quick_get_next}
use elixir_sippet.Trim.{trim_lws}
use elixir_sippet.Value.{atom, string, same_name, integer, binary, Value, one, many}
use elixir_sippet.Tests.{vm}

abbrev request : Bytes
request = codes "OPTIONS sip:a SIP/2.0\r\nl: 7\r\nX-a: b\r\n c\r\n\r\n"

abbrev request_message : Message
request_message = record {
  start_line = request_line (atom (codes "options")) (codes "sip:a") (2, 0);
  headers =
      (atom (codes "content_length"), one (integer (pos 7)))
      ∷ (string (codes "X-a"), many (binary (codes "b c") ∷ []))
      ∷ [];
}

run_request : parse vm request ≡ ok_message request_message
unfolding elixir_sippet.Ascii.is_lws elixir_sippet.Ascii.is_token_char
    elixir_sippet.Ascii.all_token_chars elixir_sippet.Ascii.is_token
    elixir_sippet.Ascii.to_lower_ascii elixir_sippet.Ascii.lower_case
    elixir_sippet.Ascii.lower_case_equals_ascii elixir_sippet.Tokenizer.finds
    elixir_sippet.Tokenizer.span elixir_sippet.Tokenizer.skip elixir_sippet.Tokenizer.skip_lws
    elixir_sippet.Tokenizer.skip_not_in elixir_sippet.Tokenizer.skip_to
    elixir_sippet.Tokenizer.skip_one elixir_sippet.Tokenizer.skip_n
    elixir_sippet.StringTokenizer.quick_get_next elixir_sippet.StringTokenizer.get_next
    elixir_sippet.Trim.trim_right elixir_sippet.Trim.trim_left elixir_sippet.Trim.trim_lws
    elixir_sippet.Number.char_to_digit elixir_sippet.Number.check_bounds
    elixir_sippet.Number.increment elixir_sippet.Number.digit_step elixir_sippet.Number.digits_loop
    elixir_sippet.Number.invoke_sign elixir_sippet.Number.invoke elixir_sippet.Number.string_to_int
    elixir_sippet.Iterators.Headers.starts_badly elixir_sippet.Iterators.Headers.header_line
    elixir_sippet.Iterators.Headers.headers_next elixir_sippet.Tokenizer.first_n
    elixir_sippet.StartLine.has_prefix elixir_sippet.StartLine.is_status_line
    elixir_sippet.StartLine.find_line_end elixir_sippet.StartLine.atom_name
    elixir_sippet.StartLine.existing_atom_or_string elixir_sippet.StartLine.version_number
    elixir_sippet.StartLine.parse_version elixir_sippet.StartLine.status_code
    elixir_sippet.StartLine.parse_status_line elixir_sippet.StartLine.parse_request_line
    elixir_sippet.Format.Single.single_integer elixir_sippet.HeaderList.header_list
    elixir_sippet.HeaderList.find_parser elixir_sippet.HeaderList.find_alias
    elixir_sippet.HeaderList.loaded_atoms elixir_sippet.Message.get_header
    elixir_sippet.Message.put_header elixir_sippet.Message.add_values
    elixir_sippet.Message.add_header elixir_sippet.Message.parse_headers
    elixir_sippet.Message.skip_char elixir_sippet.Message.skip_line_break
    elixir_sippet.Message.parse_start_line elixir_sippet.Message.parse_input
    elixir_sippet.Message.parse elixir_sippet.Message.Assemble.after_return
    elixir_sippet.Message.Assemble.after_break elixir_sippet.Message.Assemble.line_feed
    elixir_sippet.Message.Assemble.assemble elixir_sippet.Message.Assemble.assemble_raw_headers
    elixir_sippet.Message.Header.parse_values elixir_sippet.Message.Header.alias_of
    elixir_sippet.Message.Header.header_name_term elixir_sippet.Message.Header.header_parser
    elixir_sippet.Message.Header.parse_header elixir_sippet.Value.same_name
    elixir_sippet.Base.while_next elixir_sippet.Base.find_next
run_request = refl

parse_sound_example : IsStartLine request_message.start_line × IsWellFormed request_message.headers
parse_sound_example = parse_sound vm request request_message run_request

-- A request line without its version.
abbrev cut_off : Bytes
cut_off = codes "OPTIONS sip:a"

run_cut_off : parse vm cut_off ≡ bare_atom (codes "missing_uri")
unfolding parse assemble_raw_headers elixir_sippet.Message.parse_input
    elixir_sippet.Message.parse_start_line elixir_sippet.StartLine.is_status_line
    elixir_sippet.StartLine.find_line_end elixir_sippet.Tokenizer.finds
    elixir_sippet.StartLine.has_prefix elixir_sippet.Ascii.lower_case_equals_ascii
    elixir_sippet.Tokenizer.first_n parse_request_line elixir_sippet.Trim.trim_left
run_cut_off = refl

parse-bare_atom_example : is_among (codes "missing_uri") start_line_errors ≡ true
parse-bare_atom_example = parse-bare_atom vm cut_off (codes "missing_uri") run_cut_off

assemble_raw_headers-join_example :
    assemble_raw_headers (codes "a\r\n b\nc") ≡ join false (codes "a\r\n b\nc")
assemble_raw_headers-join_example = assemble_raw_headers-join (codes "a\r\n b\nc")

assemble_raw_headers-Fits_example : Fits 9 (assemble_raw_headers (codes "a\r\n b\nc\r\n"))
assemble_raw_headers-Fits_example = assemble_raw_headers-Fits (codes "a\r\n b\nc\r\n")

-- A map with the allowed methods.
abbrev allowed : Headers
allowed = (atom (codes "allow"), many (binary (codes "INVITE") ∷ [])) ∷ []

abbrev more_allowed : Value
more_allowed = many (binary (codes "ACK") ∷ binary (codes "BYE") ∷ [])

find_allow : HeaderList.find_parser (codes "allow") header_list ≡ some HeaderList.multiple_tokens
unfolding HeaderList.find_parser header_list
find_allow = refl

add_header-IsWellFormed_example :
    Ensures IsWellFormed (add_header (atom (codes "allow"), more_allowed) allowed)
add_header-IsWellFormed_example =
    add_header-IsWellFormed (atom (codes "allow"), more_allowed) allowed
      (HeaderList.multiple_tokens, find_allow, (tt, (tt, tt)))
      ((unfold get_header in refl, tt), ((HeaderList.multiple_tokens, find_allow, (tt, tt)), tt))

parse_values-Conforms_example :
    Ensures
      (Conforms HeaderList.multiple_tokens)
      (parse_values vm HeaderList.multiple_tokens (codes "INVITE, ACK"))
parse_values-Conforms_example =
    parse_values-Conforms vm HeaderList.multiple_tokens (codes "INVITE, ACK")
