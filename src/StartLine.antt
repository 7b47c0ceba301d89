-- ===== src/StartLine.antt =====
-- c_src/parser.cc: the first line of a message. A line is the text from `line_begin` to `line_end`.
-- The loops `while (*p == ' ') ++p` have no test for `line_end`: the character there is the line
-- break, or the terminating NUL of the whole text, so they stop there as `span` does.
pub mod RoundTrip
use elixir_sippet.Base.Int.{ℤ}
use elixir_sippet.Base.{
  ℕ, ◌-◌, Bool, not, ◌&&◌, ◌||◌, [], ◌∷◌, map, Bytes, codes, Result, ok, err, ◌>>=◌, ltb, length,
  ◌==◌, if◌then◌else◌,
}
use elixir_sippet.Ascii.{is_digit, to_lower_ascii, lower_case_equals_ascii}
use elixir_sippet.Number.{string_to_int}
use elixir_sippet.Tokenizer.{
  span, finds, skip_lws, skip_to, skip_one, skip_n, end_of_input, first_n,
}
use elixir_sippet.Trim.{trim_left, trim_right}
use elixir_sippet.Value.{Name, atom, string, Runtime}

-- `*current`; at the end of a text it is a line break or a NUL, and every test on it fails.
abbrev pub peek : Bytes → ℕ
peek [] = 0
peek (c ∷ s) = c

abbrev pub is_blank : ℕ → Bool
is_blank c = c == b' '

-- `line.size() >= n && LowerCaseEqualsASCII(line[0, n), prefix)`
unfoldable pub has_prefix : Bytes → Bytes → Bool
has_prefix prefix line = lower_case_equals_ascii (first_n (length prefix) line) prefix

-- `IsStatusLine`: more than four characters.
unfoldable pub is_status_line : Bytes → Bool
is_status_line line = ltb 4 (length line) && has_prefix (codes "sip/") line

-- `FindLineEnd`: the line, and the text from its end on.
unfoldable pub find_line_end : Bytes → Bytes × Bytes
find_line_end = span (λ c. not (finds (b'\r' ∷ b'\n' ∷ []) c))

-- `MakeLowerCaseExistingAtom`: the atom's text.
unfoldable pub atom_name : Bytes → Bytes
atom_name = map (λ c. if c == b'-' then b'_' else to_lower_ascii c)

unfoldable pub existing_atom_or_string : Runtime → Bytes → Name
existing_atom_or_string vm name =
    if vm.atom_exists (atom_name name) then atom (atom_name name) else string name

-- `ParseVersion`, behind the text `sip`.
unfoldable pub version_number : Bytes → Result (ℕ × ℕ)
version_number tok =
    let major = skip_lws (skip_one tok) in
    let minor = skip_lws (skip_one (skip_to b'.' major).1) in
    if not (peek tok == b'/')
    then err (codes "missing_version")
    else if end_of_input minor
    then err (codes "malformed_version")
    else if not (is_digit (peek major)) || not (is_digit (peek minor))
    then err (codes "malformed_version_number")
    else ok (peek major - b'0', peek minor - b'0')

-- `ParseVersion`
unfoldable pub parse_version : Bytes → Result (ℕ × ℕ)
parse_version line =
    if not (has_prefix (codes "sip") line)
    then err (codes "missing_version_spec")
    else version_number (skip_lws (skip_n 3 line))

pub data StartLine : Type 0 where
  status_line : ℕ × ℕ → ℤ → Bytes → StartLine
  request_line : Name → Bytes → ℕ × ℕ → StartLine

-- `ParseStatusLine`, from the first space on.
unfoldable pub status_code : ℕ × ℕ → Bytes → Result StartLine
status_code version p =
    let (code, rest) = span is_digit (trim_left is_blank p) in
    let reason_phrase = trim_right is_blank (trim_left is_blank rest) in
    if end_of_input p
    then err (codes "missing_status_code")
    else if end_of_input code
    then err (codes "empty_status_code")
    else if not (string_to_int code).0
    then err (codes "invalid_status_code")
    else ok (status_line version (string_to_int code).1 reason_phrase)

unfoldable pub parse_status_line : Bytes → Result StartLine
parse_status_line line = do
  version ← parse_version line
  status_code version (span (λ c. not (is_blank c)) line).1

abbrev pub is_line_blank : ℕ → Bool
is_line_blank c = c == b' ' || c == b'\t' || c == b'\r' || c == b'\n'

unfoldable pub parse_request_line : Runtime → Bytes → Result StartLine
parse_request_line vm line =
    let (method, p) = span (λ c. not (is_blank c)) (trim_left is_line_blank line) in
    let (uri, q) = span (λ c. not (is_blank c)) (trim_left is_blank p) in
    if end_of_input p
    then err (codes "missing_method")
    else if end_of_input q
    then err (codes "missing_uri")
    else (do
      version ← parse_version (trim_left is_blank q)
      ok (request_line (existing_atom_or_string vm method) uri version))
