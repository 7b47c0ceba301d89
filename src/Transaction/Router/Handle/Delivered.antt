-- ===== src/Transaction/Router/Handle/Delivered.antt =====
-- lib/sippet/router.ex: the requests that reach a transaction, and those that are refused.
use elixir_sippet.Base.Int.{ℤ}
use elixir_sippet.Base.{
  ℕ, Bool, true, Bool-cases, ◌||◌, List, ◌∷◌, Option, some, Bytes, codes, ◌≡◌, ◌⊎◌, inl, inr, refl,
  sym, ap, ◌∙◌, arith, if◌then◌else◌,
}
use elixir_sippet.Field.Params.Lookup.{map_get-map_put}
use elixir_sippet.Transaction.Key.Related.{
  fetch_header-set_header, fetch_header-set_header_same, header_value-set_header,
}
use elixir_sippet.Transaction.Key.{cseq_method, server_key, server_key_of_request, via_branch}
use elixir_sippet.Transaction.Message.{
  Request, fetch_header, header_value, set_header, via_name, from_name, cseq_name,
}
use elixir_sippet.Transaction.Router.Handle.{
  Handled, refused, delivered, parts_of, deliver, handle_request,
}
use elixir_sippet.Transaction.Router.Received.{
  From, put_received, put_rport, update_front, update_via, prepare,
}
use elixir_sippet.Transaction.Router.{Registry, Delivery, route_request, receive_transport_request}
use elixir_sippet.Transaction.Validate.Answers.{Accepted, validate-Answers, validate-Accepted}
use elixir_sippet.Transaction.Validate.Validators.{all_vias, is_contact}
use elixir_sippet.Transaction.Validate.{Reason}
use elixir_sippet.Value.{Name, atom, same_name, Value, Item, many, via, Params, map_get}

-- A request that came over a WebSocket
abbrev pub is_websocket : From → Bool
is_websocket from =
    same_name from.protocol (atom (codes "wss")) || same_name from.protocol (atom (codes "ws"))

-- What a transaction gets.
abbrev pub routed : Registry × Delivery → Handled
routed (after, delivery) = delivered after delivery

map_get-put_both :
    (host via_host port_text : Bytes) (port via_port : ℤ) (params : Params)
    → map_get
        (codes "branch")
        (put_rport port port_text via_port (put_received host via_host params))
      ≡ map_get (codes "branch") params
unfolding put_rport put_received
map_get-put_both host via_host port_text port via_port params = ground (
  arith,
  map_get-map_put (codes "branch") (codes "rport") port_text (put_received host via_host params),
  map_get-map_put (codes "branch") (codes "received") host params,
)

pub header_value-fetched :
    (name : Name) (value : Option Value) (request : Request)
    → fetch_header name request.headers ≡ some value
    → header_value name request.headers ≡ value
unfolding header_value
header_value-fetched name value request e = rw (header_value, e) refl

module _ (version via_version : ℕ × ℕ) (body : Option Bytes) (pid : ℕ) (registry : Registry)
    (protocol : Name) (host : Bytes) (port : ℤ) (rest : List Item) where
  receive-branch :
      (request : Request) (params : Params) (branch : Bytes)
      → fetch_header via_name request.headers
        ≡ some (some (many (via via_version protocol host port params ∷ rest)))
      → map_get (codes "branch") params ≡ some branch
      → receive_transport_request request pid registry
        ≡ some (route_request (server_key branch request.method (host, port)) request pid registry)
  unfolding receive_transport_request server_key_of_request via_branch
  receive-branch request params branch topmost has_branch =
      let value = header_value-fetched via_name _ request topmost in
      rw (receive_transport_request, value, has_branch) refl

  deliver-delivers :
      (request : Request) (params : Params)
      → fetch_header via_name request.headers
        ≡ some (some (many (via via_version protocol host port params ∷ rest)))
      → is_contact (fetch_header from_name request.headers) ≡ true
      → all_vias rest ≡ true
      → ((reason : Reason) × (deliver version body pid registry request ≡ refused reason))
        ⊎ ((branch : Bytes) × Accepted
              (parts_of version body request)
              request.method
              via_version
              params
              branch
            × (deliver version body pid registry request
                ≡ routed (
                    route_request
                      (server_key branch request.method (host, port))
                      request
                      pid
                      registry)))
  unfolding deliver
  deliver-delivers request params topmost from all =
      let m = parts_of version body request in
      elim (validate-Answers m request.method protocol via_version host port params rest refl
        topmost from all) [
          | inr (reason, e) ↦ inl (reason, rw (deliver, e) refl)
          | inl ok ↦
              let (branch, accepted) =
                validate-Accepted m request.method protocol via_version host port params rest refl
                  topmost ok in
              let received = receive-branch request params branch topmost accepted.2 in
              inr (branch, accepted, rw (deliver, ok, received) refl)
        ]

-- The parameters of the topmost Via behind `update_via`
abbrev pub seen_params : From → Bytes → ℤ → Params → Params
seen_params from via_host via_port params =
    if is_websocket from
    then params
    else put_rport from.port from.port_text via_port (put_received from.host via_host params)

map_get-seen_params :
    (from : From) (via_host : Bytes) (via_port : ℤ) (params : Params)
    → map_get (codes "branch") (seen_params from via_host via_port params)
      ≡ map_get (codes "branch") params
map_get-seen_params from via_host via_port params = elim (Bool-cases (is_websocket from)) [
  | inl websocket ↦ rw websocket refl
  | inr plain ↦
      rw plain (map_get-put_both from.host via_host from.port_text from.port via_port params)
]

-- The request that is prepared of one: all but the topmost Via is as it was.
abbrev pub Prepares : Request → Request → Type 0
Prepares request prepared =
    (prepared.method ≡ request.method)
    × (fetch_header from_name prepared.headers ≡ fetch_header from_name request.headers)
    × (header_value cseq_name prepared.headers ≡ header_value cseq_name request.headers)

module _ (from : From) (source : Option Name) (request : Request) (via_version : ℕ × ℕ)
    (protocol : Name) (host : Bytes) (port : ℤ) (params : Params) (rest : List Item)
    (topmost : fetch_header via_name request.headers
      ≡ some (some (many (via via_version protocol host port params ∷ rest)))) where
  prepare-Prepares :
      (prepared : Request) × (prepare from source request ≡ some prepared)
      × (fetch_header via_name prepared.headers
          ≡ some (
              some (
                many
                  (via via_version protocol host port (seen_params from host port params) ∷ rest))))
      × Prepares request prepared
  unfolding prepare update_via update_front
  prepare-Prepares = elim (Bool-cases (is_websocket from)) [
    | inl websocket ↦ (
      record request { source = source; source_peer = some (from.host, from.port) },
      rw (prepare, update_via, websocket) refl,
      rw websocket topmost,
      (refl, refl, refl),
    )
    | inr plain ↦
        let value = some (
          many (
            via via_version protocol host port
              (put_rport from.port from.port_text port (put_received from.host host params))
            ∷ rest)) in
        (
          record request {
            headers = set_header via_name value request.headers;
            source = source;
            source_peer = some (from.host, from.port);
          },
          rw (prepare, update_via, plain, topmost) refl,
          rw plain (fetch_header-set_header_same via_name value request.headers),
          (
            refl,
            fetch_header-set_header from_name via_name value request.headers
                (unfold same_name in refl),
            header_value-set_header cseq_name via_name value request.headers
                (unfold same_name in refl),
          ),
        )
  ]

  -- A request with a list of Via values, whose From is a contact if it is there, is refused by a
  -- validator or delivered; no exception arises. It is delivered only if its version and that of
  -- the topmost Via are 2.0, the branch of this Via begins with the magic cookie, and the CSeq
  -- names its method; then `receive_transport_message` goes by this branch and the sent-by, as they
  -- came.
  pub handle_request-delivers :
      (version : ℕ × ℕ) (body : Option Bytes) (pid : ℕ) (registry : Registry)
      → is_contact (fetch_header from_name request.headers) ≡ true
      → all_vias rest ≡ true
      → ((reason : Reason) × (handle_request from source version body pid registry request
            ≡ refused reason))
        ⊎ ((branch : Bytes) × (prepared : Request) × Accepted
              (parts_of version body request)
              request.method
              via_version
              params
              branch
            × (prepare from source request ≡ some prepared)
            × (handle_request from source version body pid registry request
                ≡ routed (
                    route_request
                      (server_key branch request.method (host, port))
                      prepared
                      pid
                      registry)))
  unfolding handle_request
  handle_request-delivers version body pid registry is_from all =
      let (prepared, made, seen, (same_method, same_from, same_cseq)) = prepare-Prepares in
      let whole : handle_request from source version body pid registry request
          ≡ deliver version body pid registry prepared =
        rw (handle_request, made) refl in
      elim (deliver-delivers version via_version body pid registry protocol host port rest prepared
        (seen_params from host port params) seen (ap is_contact same_from ∙ is_from) all) [
          | inl (reason, e) ↦ inl (reason, whole ∙ e)
          | inr (branch, (start, two, there, cookie, names), e) ↦
              let branch_there = sym (map_get-seen_params from host port params) ∙ there in
              let cseq = ap cseq_method (sym same_cseq) ∙ names ∙ ap some same_method in
              inr (
                branch,
                prepared,
                (start, two, branch_there, cookie, cseq),
                made,
                whole
                    ∙ e
                    ∙ ap
                        (λ method. routed (
                          route_request (server_key branch method (host, port)) prepared pid
                            registry))
                        same_method,
              )
        ]
