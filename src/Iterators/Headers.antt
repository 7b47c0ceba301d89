-- ===== src/Iterators/Headers.antt =====
-- c_src/utils.cc: `HeadersIterator`.
use elixir_sippet.Base.{
  Bool, true, not, [], ◌∷◌, Option, none, some, Bytes, Next, find_next, rounds, ◌==◌, if◌then◌else◌,
}
use elixir_sippet.Ascii.{is_lws, is_token, lower_case_equals_ascii}
use elixir_sippet.StringTokenizer.{get_next}
use elixir_sippet.Tokenizer.{span, skip_one, end_of_input}
use elixir_sippet.Trim.{trim_lws}

-- The name and the values of a header line.
pub record HeaderLine : Type 0 where
  pub name : Bytes
  pub values : Bytes

-- `name_begin_ == name_end_ || IsLWS(*name_begin_)`
unfoldable pub starts_badly : Bytes → Bool
unfolding is_lws
starts_badly [] = true
starts_badly (c ∷ name) = is_lws c

-- The body of the loop of `GetNext`; `none` is `continue`.
unfoldable pub header_line : Bytes → Option HeaderLine
unfolding span starts_badly trim_lws is_token skip_one
header_line line =
    let (before, colon) = span (λ c. not (c == b':')) line in
    let name = trim_lws before in
    if end_of_input colon
    then none
    else if starts_badly before
    then none
    else if not (is_token name)
    then none
    else some (record { name = name; values = trim_lws (skip_one colon) })

-- The delimiters that `Parse` gives.
abbrev pub line_breaks : Bytes
line_breaks = b'\r' ∷ b'\n' ∷ []

-- `GetNext`
unfoldable pub headers_next : Next HeaderLine
unfolding find_next get_next header_line
headers_next s = find_next (get_next line_breaks []) header_line (rounds s) s

-- `AdvanceTo`
unfoldable pub advance_to : Bytes → Next HeaderLine
unfolding headers_next lower_case_equals_ascii
advance_to lowercase_name s =
    find_next headers_next
      (λ h. if lower_case_equals_ascii h.name lowercase_name then some h else none) (rounds s) s
