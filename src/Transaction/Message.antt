-- ===== src/Transaction/Message.antt =====
-- lib/sippet/message.ex and lib/sippet.ex: what the transactions use of messages. The value of a header
-- is the parser's `Value`, or `none` where the code puts `nil`.
use elixir_sippet.Base.Int.{ℤ}
use elixir_sippet.Base.{
  ℕ, Bool, true, false, List, [], ◌∷◌, Option, none, some, Bytes, codes, ◌/◌, if◌then◌else◌,
}
use elixir_sippet.Value.{Name, atom, same_name, Value, many, via}

abbrev pub HeaderMap : Type 0
HeaderMap = List (Name × Option Value)

-- `fetch_header`; the outer `none` is `:error`.
unfoldable pub fetch_header : Name → HeaderMap → Option (Option Value)
unfolding same_name
fetch_header name [] = none
fetch_header name ((n, v) ∷ m) = if same_name n name then some v else fetch_header name m

-- `has_header?`
unfoldable pub has_header : Name → HeaderMap → Bool
unfolding fetch_header
has_header name m = elim (fetch_header name m) [ none ↦ false | some v ↦ true ]

-- `get_header` with its default, `nil`
unfoldable pub header_value : Name → HeaderMap → Option Value
unfolding fetch_header
header_value name m = elim (fetch_header name m) [ none ↦ none | some v ↦ v ]

-- `put_header`
unfoldable pub set_header : Name → Option Value → HeaderMap → HeaderMap
unfolding same_name
set_header name v [] = (name, v) ∷ []
set_header name v ((n, w) ∷ m) =
    if same_name n name then (name, v) ∷ m else (n, w) ∷ set_header name v m

-- The transport that a message came by, and the host and port of its other end.
abbrev pub Peer : Type 0
Peer = Bytes × ℤ

-- A message whose start line is a `RequestLine`.
pub record Request : Type 0 where
  pub method : Name
  pub request_uri : Bytes
  pub headers : HeaderMap
  pub source : Option Name
  pub source_peer : Option Peer

-- A message whose start line is a `StatusLine`.
pub record Response : Type 0 where
  pub status_code : ℕ
  pub headers : HeaderMap
  pub target : Option (Name × Bytes × ℤ)
  pub source_peer : Option Peer

-- `StatusLine.status_code_class`
unfoldable pub status_code_class : Response → ℕ
status_code_class response = response.status_code / 100

-- What stands outside the transactions: `{:protocol_reliable, protocol}` of the registry or, without
-- it, `{:transport, protocol}`; and `String.to_integer`, which raises on a text that is no number.
pub record Sippet : Type 0 where
  pub protocol_reliable : Name → Option Bool
  pub to_integer : Bytes → Option ℤ

-- The protocol of the topmost Via, if the header is there.
unfoldable pub via_protocol : Option Value → Option Name
via_protocol (some (many (via version protocol host port params ∷ rest))) = some protocol
via_protocol v = none

-- `reliable?`; `none` is an exception.
unfoldable pub reliable : Sippet → Request → Option Bool
unfolding via_protocol header_value
reliable sippet request = elim (via_protocol (header_value (atom (codes "via")) request.headers)) [
  | none ↦ none
  | some protocol ↦ sippet.protocol_reliable protocol
]

-- The names of headers that the transactions look up.
abbrev pub via_name : Name
via_name = atom (codes "via")

abbrev pub to_name : Name
to_name = atom (codes "to")

abbrev pub from_name : Name
from_name = atom (codes "from")

abbrev pub call_id_name : Name
call_id_name = atom (codes "call_id")

abbrev pub cseq_name : Name
cseq_name = atom (codes "cseq")

abbrev pub route_name : Name
route_name = atom (codes "route")

abbrev pub record_route_name : Name
record_route_name = atom (codes "record_route")

abbrev pub max_forwards_name : Name
max_forwards_name = atom (codes "max_forwards")

abbrev pub ack_name : Name
ack_name = atom (codes "ack")

abbrev pub tag : Bytes
tag = codes "tag"

-- A header that is copied from one message to another.
abbrev pub copy_header : Name → HeaderMap → HeaderMap → HeaderMap
copy_header name source m = set_header name (header_value name source) m

-- A header that is copied if it is there.
abbrev pub copy_if_there : Name → HeaderMap → HeaderMap → HeaderMap
copy_if_there name source m = if has_header name source then copy_header name source m else m

-- `request |> Message.to_response(100)`: a provisional response, which gets no tag.
unfoldable pub trying_response : Request → Response
unfolding set_header header_value has_header
trying_response request =
    let copied = copy_header cseq_name request.headers (
      copy_header call_id_name request.headers (
        copy_header to_name request.headers
          (copy_header from_name request.headers (copy_header via_name request.headers [])))) in
    record {
      status_code = 100;
      headers = copy_if_there record_route_name request.headers copied;
      target = none;
      source_peer = none;
    }
