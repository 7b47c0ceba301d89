-- ===== src/Message.antt =====
-- c_src/parser.cc: `AssembleRawHeaders`, `ParseHeader` and `Parse`.
pub mod Assemble
pub mod Header
pub mod Errors
pub mod HeaderMap
pub mod Names
pub mod Merge
pub mod Accepts
pub mod Rounds
pub mod Unordered
pub mod Sound
pub mod WellFormed
pub mod Write
use elixir_sippet.Base.{
  ℕ, List, [], ◌∷◌, Option, none, some, Bytes, codes, Result, ok, err, ◌>>=◌, rounds, while_next,
  reverse, reverse_onto, ◌==◌, if◌then◌else◌,
}
use elixir_sippet.Iterators.Headers.{headers_next}
use elixir_sippet.Message.Assemble.{assemble_raw_headers}
use elixir_sippet.Message.Header.{parse_header}
use elixir_sippet.StartLine.{
  StartLine, find_line_end, is_status_line, parse_status_line, parse_request_line,
}
use elixir_sippet.Value.{Name, same_name, Item, Value, one, many, Runtime}

-- The map of the headers.
abbrev pub Headers : Type 0
Headers = List (Name × Value)

unfoldable pub get_header : Name → Headers → Option Value
get_header name [] = none
get_header name ((n, v) ∷ m) = if same_name n name then some v else get_header name m

unfoldable pub put_header : Name → Value → Headers → Headers
put_header name v [] = (name, v) ∷ []
put_header name v ((n, w) ∷ m) =
    if same_name n name then (name, v) ∷ m else (n, w) ∷ put_header name v m

-- The cells that `enif_get_list_cell` finds: none in a term that is no list.
abbrev pub cells : Value → List Item
cells (one item) = []
cells (many items) = items

-- The values under a name that is there already: the new cells go behind the old ones, by way of the
-- list turned around twice.
unfoldable pub add_values : Value → Value → Result Value
add_values (one old) new = err (codes "multiple_definition")
add_values (many old) new = ok (many (reverse (reverse_onto (cells new) (reverse old))))

-- The body of the loop of `Parse` behind `ParseHeader`.
unfoldable pub add_header : Name × Value → Headers → Result Headers
add_header (name, values) headers = elim (get_header name headers) [
  | none ↦ ok (put_header name values headers)
  | some old ↦ add_values old values >>= λ added. ok (put_header name added headers)
]

-- The loop of `Parse`.
unfoldable pub parse_headers : Runtime → Bytes → Result Headers
parse_headers vm s =
    while_next headers_next
      (λ h headers. parse_header vm h.name h.values >>= λ header. add_header header headers)
      (rounds s) s []

pub record Message : Type 0 where
  pub start_line : StartLine
  pub headers : Headers

-- What `Parse` returns: `{ok, message}`, `{error, reason}`, or an atom alone.
pub data Reply : Type 0 where
  ok_message : Message → Reply
  error_tuple : Bytes → Reply
  bare_atom : Bytes → Reply

unfoldable pub skip_char : ℕ → Bytes → Bytes
skip_char x [] = []
skip_char x (c ∷ s) = if c == x then s else c ∷ s

-- `Jump over next CRLF`
unfoldable pub skip_line_break : Bytes → Bytes
skip_line_break s = skip_char b'\n' (skip_char b'\r' s)

unfoldable pub parse_start_line : Runtime → Bytes → Result StartLine
parse_start_line vm line =
    if is_status_line line then parse_status_line line else parse_request_line vm line

-- `Parse`, with the lines put together. `enif_make_reverse_list` fails on the map of the headers, and
-- leaves it as it is.
unfoldable pub parse_input : Runtime → Bytes → Reply
parse_input vm input =
    let (line, rest) = find_line_end input in
    elim (parse_start_line vm line) [
      | err reason ↦ bare_atom reason
      | ok start_line ↦ elim (parse_headers vm (skip_line_break rest)) [
        | err reason ↦ error_tuple reason
        | ok headers ↦ ok_message (record { start_line = start_line; headers = headers })
      ]
    ]

-- `Parse`
unfoldable pub parse : Runtime → Bytes → Reply
parse vm raw_message = elim (assemble_raw_headers raw_message) [
  | none ↦ error_tuple (codes "invalid_line_break")
  | some input ↦ parse_input vm input
]
