-- ===== src/Transaction/Router/Received.antt =====
-- lib/sippet/router.ex: what `update_via` adds to the topmost Via of a request, and where the responses go.
use elixir_sippet.Base.Int.{ℤ, eqb_ℤ}
use elixir_sippet.Base.{
  ℕ, false, ◌||◌, List, [], ◌∷◌, Option, none, some, Bytes, codes, equal, ◌≡◌, if◌then◌else◌,
}
use elixir_sippet.Transaction.Message.{Request, Sippet, fetch_header, set_header, via_name}
use elixir_sippet.Value.{Name, atom, same_name, Value, Item, many, via, Params, map_put}

-- The tuple `from`: the protocol, the text of the address, the port and its text.
pub record From : Type 0 where
  pub protocol : Name
  pub host : Bytes
  pub port : ℤ
  pub port_text : Bytes

-- The parameters of the Via, with `received` where the address is another than its host.
unfoldable pub put_received : Bytes → Bytes → Params → Params
unfolding map_put
put_received host via_host params =
    if equal host via_host then params else map_put (codes "received") host params

-- With `rport` where the port is another than the Via's.
unfoldable pub put_rport : ℤ → Bytes → ℤ → Params → Params
unfolding map_put
put_rport port port_text via_port params =
    if eqb_ℤ port via_port then params else map_put (codes "rport") port_text params

-- `update_header_front` with the function of `update_via`; the outer `none` of the argument is a header that
-- is not there, and that of the result an exception.
unfoldable pub update_front : From → Option (Option Value) → Option Value
unfolding put_received put_rport
update_front from none = some (many [])
update_front from (some (some (many (via version protocol host port params ∷ rest)))) = some (
    many (
      via version protocol host port
        (put_rport from.port from.port_text port (put_received from.host host params))
      ∷ rest))
update_front from (some value) = none

-- `update_via` of a request
unfoldable pub update_via : From → Request → Option Request
unfolding same_name update_front fetch_header set_header
update_via from request =
    if same_name from.protocol (atom (codes "wss")) || same_name from.protocol (atom (codes "ws"))
    then some request
    else elim (update_front from (fetch_header via_name request.headers)) [
      | none ↦ none
      | some updated ↦
          some (record request { headers = set_header via_name (some updated) request.headers })
    ]

-- The request that `handle_transport_message_legacy` prepares of a parsed one.
unfoldable pub prepare : From → Option Name → Request → Option Request
unfolding update_via
prepare from source request = elim (update_via from request) [
  | none ↦ none
  | some updated ↦
      some (record updated { source = source; source_peer = some (from.host, from.port) })
]

module _ (from : From) (source version_protocol : Name) (sippet : Sippet)
    (request prepared : Request) (version : ℕ × ℕ) (via_host : Bytes) (via_port : ℤ)
    (params : Params) (rest : List Item)
    (plain : (same_name from.protocol (atom (codes "wss"))
        || same_name from.protocol (atom (codes "ws")))
      ≡ false)
    (topmost : fetch_header via_name request.headers
      ≡ some (some (many (via version version_protocol via_host via_port params ∷ rest))))
    (is_prepared : prepare from (some source) request ≡ some prepared) where
  -- The topmost Via behind `update_via`
  abbrev updated : Option Value
  updated = some (
      many (
        via version version_protocol via_host via_port
          (put_rport from.port from.port_text via_port (put_received from.host via_host params))
        ∷ rest))

  -- The request as it is prepared
  abbrev seen : Request
  seen = record {
    method = request.method;
    request_uri = request.request_uri;
    headers = set_header via_name updated request.headers;
    source = some source;
    source_peer = some (from.host, from.port);
  }
