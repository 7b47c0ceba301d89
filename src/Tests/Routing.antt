-- ===== src/Tests/Routing.antt =====
-- Runs of `handle_transport_message_legacy` on small requests, and the properties at these requests.
use elixir_sippet.Base.Int.{pos}
use elixir_sippet.Base.{true, false, [], ◌∷◌, none, some, Bytes, codes, ◌≡◌, ◌⊎◌, refl}
use elixir_sippet.Transaction.Key.{server_key}
use elixir_sippet.Transaction.Message.{
  Request, HeaderMap, set_header, fetch_header, via_name, to_name, from_name, cseq_name,
  call_id_name,
}
use elixir_sippet.Transaction.Router.Handle.Delivered.{
  routed, is_websocket, handle_request-delivers,
}
use elixir_sippet.Transaction.Router.Handle.NoVia.{handle_request-no_via}
use elixir_sippet.Transaction.Router.Handle.{handle_request, parts_of, refused, delivered, crashes}
use elixir_sippet.Transaction.Router.Received.{From, prepare}
use elixir_sippet.Transaction.Router.{route_request, starts_server, non_invite}
use elixir_sippet.Transaction.Validate.Answers.{Accepted}
use elixir_sippet.Transaction.Validate.Validators.{is_contact}
use elixir_sippet.Transaction.Validate.{Reason, other_method, valid, validate_message}
use elixir_sippet.Value.{Name, atom, Params, many, one, via, contact, cseq, binary, same_name}

abbrev without_via : Name → HeaderMap
without_via method =
    (to_name, some (one (contact (codes "Bob") (codes "sip:bob@biloxi.com") [])))
    ∷ (
      from_name,
      some (
          one (
            contact (codes "Alice") (codes "sip:alice@atlanta.com")
              ((codes "tag", codes "1928301774") ∷ []))),
    )
    ∷ (call_id_name, some (one (binary (codes "a84b4c76e66710"))))
    ∷ (cseq_name, some (one (cseq (pos 63104) method)))
    ∷ []

abbrev options_name : Name
options_name = atom (codes "options")

abbrev branch : Params
branch = (codes "branch", codes "z9hG4bKhjhs8ass877") ∷ []

abbrev options : HeaderMap → Request
options headers = record {
  method = options_name;
  request_uri = codes "sip:carol@chicago.com";
  headers = headers;
  source = none;
  source_peer = none;
}

abbrev whole : Request
whole = options (
    (
      via_name,
      some (
          many (via (2, 0) (atom (codes "udp")) (codes "pc33.atlanta.com") (pos 5060) branch ∷ [])),
    )
    ∷ without_via options_name)

abbrev connection : From
connection = record {
  protocol = atom (codes "udp");
  host = codes "192.0.2.1";
  port = pos 5062;
  port_text = codes "5062";
}

has_via :
    fetch_header via_name whole.headers
    ≡ some (
        some (
          many (via (2, 0) (atom (codes "udp")) (codes "pc33.atlanta.com") (pos 5060) branch ∷ [])))
unfolding fetch_header
has_via = refl

has_from : is_contact (fetch_header from_name whole.headers) ≡ true
unfolding fetch_header
has_from = refl

handle_request-delivers_example :
    ((reason : Reason) × (handle_request connection none (2, 0) none 7 [] whole ≡ refused reason))
    ⊎ ((b : Bytes) × (prepared : Request) × Accepted
          (parts_of (2, 0) none whole)
          options_name
          (2, 0)
          branch
          b
        × (prepare connection none whole ≡ some prepared)
        × (handle_request connection none (2, 0) none 7 [] whole
            ≡ routed (
                route_request
                  (server_key b options_name (codes "pc33.atlanta.com", pos 5060))
                  prepared
                  7
                  [])))
handle_request-delivers_example =
    handle_request-delivers connection none whole (2, 0) (atom (codes "udp"))
      (codes "pc33.atlanta.com") (pos 5060) branch [] has_via (2, 0) none 7 [] has_from refl

-- The request starts a transaction.
handle_whole :
    handle_request connection none (2, 0) none 7 [] whole
    ≡ delivered
        ((
          server_key (codes "z9hG4bKhjhs8ass877") options_name (codes "pc33.atlanta.com", pos 5060),
          7,
        )
          ∷ [])
        (starts_server non_invite 7)
unfolding handle_request
handle_whole = refl

-- A CSeq that names another method is refused.
handle_other :
    handle_request connection none
      (2, 0)
      none
      7
      []
      (record whole {
        headers =
            set_header cseq_name (some (one (cseq (pos 1) (atom (codes "bye"))))) whole.headers;
      })
    ≡ refused other_method
unfolding handle_request set_header
handle_other = refl

not_websocket : is_websocket connection ≡ false
unfolding same_name
not_websocket = refl

no_via : fetch_header via_name (without_via options_name) ≡ none
unfolding fetch_header
no_via = refl

else_valid :
    validate_message (
      parts_of
        (2, 0)
        none
        (record (options (without_via options_name)) {
          headers = set_header via_name (some (many [])) (without_via options_name);
        }))
    ≡ valid
unfolding validate_message set_header
else_valid = refl

handle_request-no_via_example :
    handle_request connection none (2, 0) none 7 [] (options (without_via options_name)) ≡ crashes
handle_request-no_via_example =
    handle_request-no_via connection none (2, 0) none 7 [] (options (without_via options_name))
      not_websocket no_via else_valid
