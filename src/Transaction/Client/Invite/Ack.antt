-- ===== src/Transaction/Client/Invite/Ack.antt =====
-- lib/sippet/transactions/client/invite.ex: the ACK that `build_ack` makes.
use elixir_sippet.Base.Int.{ℤ}
use elixir_sippet.Base.{Bool, true, false, none, some, Bytes, ◌≡◌, refl, sym, arith, if◌then◌else◌}
use elixir_sippet.Transaction.Client.Invite.{ack_headers, build_ack}
use elixir_sippet.Transaction.Message.{
  HeaderMap, Request, Response, fetch_header, has_header, header_value, set_header, via_name,
  to_name, from_name, call_id_name, cseq_name, route_name, ack_name, tag,
}
use elixir_sippet.Value.{Name, Value, one, contact, cseq, map_get, map_put, Params, same_name}

header_value-absent :
    (name : Name) (m : HeaderMap) → has_header name m ≡ false → header_value name m ≡ none
unfolding has_header header_value
header_value-absent name m h = ground arith

-- The ACK is for the URI, the number of the sequence, the Via values, the From, the Call-ID and the route
-- of the request, and its To is the request's with the tag of the response.
abbrev pub Acknowledges : Request → ℤ → Bytes × Bytes × Params → Bytes → Request → Type 0
Acknowledges request sequence (display_name, uri, params) to_tag ack =
    (ack.method ≡ ack_name)
    × (ack.request_uri ≡ request.request_uri)
    × (header_value cseq_name ack.headers ≡ some (one (cseq sequence ack_name)))
    × (header_value to_name ack.headers
        ≡ some (one (contact display_name uri (map_put tag to_tag params))))
    × (header_value via_name ack.headers ≡ header_value via_name request.headers)
    × (header_value from_name ack.headers ≡ header_value from_name request.headers)
    × (header_value call_id_name ack.headers ≡ header_value call_id_name request.headers)
    × (header_value route_name ack.headers ≡ header_value route_name request.headers)

-- The headers of the ACK, where `routed` tells whether the request has a route.
abbrev acked : Bool → Request → ℤ → Value → HeaderMap
unfolding ack_headers set_header header_value same_name
acked routed request sequence to =
    let route = λ (m : HeaderMap).
      if routed then set_header route_name (header_value route_name request.headers) m else m in
    route (
      set_header to_name (some to)
        (route (set_header cseq_name (some (one (cseq sequence ack_name))) (ack_headers request))))

acked-Acknowledges :
    (routed : Bool) (request : Request) (sequence : ℤ) (display_name uri : Bytes) (params : Params)
    (to_tag : Bytes)
    → has_header route_name request.headers ≡ routed
    → Acknowledges request sequence
        (display_name, uri, params)
        to_tag
        (record {
          method = ack_name;
          request_uri = request.request_uri;
          headers =
              acked routed request sequence
                (one (contact display_name uri (map_put tag to_tag params)));
          source = none;
          source_peer = none;
        })
unfolding acked header_value fetch_header
acked-Acknowledges true request sequence display_name uri params to_tag h =
    (refl, refl, refl, refl, refl, refl, refl, refl)
acked-Acknowledges false request sequence display_name uri params to_tag h = (
  refl,
  refl,
  refl,
  refl,
  refl,
  refl,
  refl,
  sym (header_value-absent route_name request.headers h),
)

-- `build_ack` on messages that have the headers it reads.
built :
    (routed : Bool) (request : Request) (response : Response) (sequence : ℤ) (method : Name)
    (display_name uri : Bytes) (params : Params) (other_name other_uri : Bytes) (other : Params)
    (to_tag : Bytes)
    → fetch_header cseq_name request.headers ≡ some (some (one (cseq sequence method)))
    → fetch_header to_name request.headers ≡ some (some (one (contact display_name uri params)))
    → fetch_header to_name response.headers ≡ some (some (one (contact other_name other_uri other)))
    → map_get tag other ≡ some to_tag
    → has_header route_name request.headers ≡ routed
    → build_ack request response
      ≡ some (record {
        method = ack_name;
        request_uri = request.request_uri;
        headers =
            acked routed request sequence
              (one (contact display_name uri (map_put tag to_tag params)));
        source = none;
        source_peer = none;
      })
unfolding build_ack acked
built true request response sequence method display_name uri params other_name other_uri other
      to_tag hc ht hr tagged route =
    rw (build_ack, hc, hr, tagged) (ground arith)
built false request response sequence method display_name uri params other_name other_uri other
      to_tag hc ht hr tagged route =
    rw (build_ack, hc, hr, tagged) (ground arith)

-- For a request with a CSeq and a To, and a response whose To has a tag, the ACK is built: it has
-- the URI, the number of the sequence, the Via values, the From, the Call-ID and the route of the
-- request, and its To is the request's with the tag of the response.
pub build_ack-Acknowledges :
    (request : Request) (response : Response) (sequence : ℤ) (method : Name)
    (display_name uri : Bytes) (params : Params) (other_name other_uri : Bytes) (other : Params)
    (to_tag : Bytes)
    → fetch_header cseq_name request.headers ≡ some (some (one (cseq sequence method)))
    → fetch_header to_name request.headers ≡ some (some (one (contact display_name uri params)))
    → fetch_header to_name response.headers ≡ some (some (one (contact other_name other_uri other)))
    → map_get tag other ≡ some to_tag
    → (ack : Request) × (build_ack request response ≡ some ack)
      × Acknowledges request sequence (display_name, uri, params) to_tag ack
unfolding build_ack acked
build_ack-Acknowledges request response sequence method display_name uri params other_name other_uri
      other to_tag hc ht hr tagged =
    let routed = has_header route_name request.headers in
    (
      record {
        method = ack_name;
        request_uri = request.request_uri;
        headers =
            acked routed request sequence
              (one (contact display_name uri (map_put tag to_tag params)));
        source = none;
        source_peer = none;
      },
      built routed request response sequence method display_name uri params other_name other_uri
          other to_tag hc ht hr tagged refl,
      acked-Acknowledges routed request sequence display_name uri params to_tag refl,
    )
