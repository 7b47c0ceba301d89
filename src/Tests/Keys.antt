-- ===== src/Tests/Keys.antt =====
-- lib/sippet/router.ex and the keys: the theorems on where a message goes, at the same INVITE.
use elixir_sippet.Base.Int.{pos}
use elixir_sippet.Base.{false, [], ◌∷◌, none, some, Bytes, codes, ◌≡◌, refl}
use elixir_sippet.Transaction.Message.{
  Request, Sippet, trying_response, via_name, to_name, from_name, call_id_name, cseq_name,
  header_value,
}
use elixir_sippet.Transaction.Router.Reached.{
  receive_transport_request-reaches, receive_transport_response-reaches,
}
use elixir_sippet.Transaction.Router.Received.{From}
use elixir_sippet.Transaction.Router
use elixir_sippet.Transaction.Router.{
  lookup, register, start_server, receive_transport_request, receive_transport_response,
  send_transaction_request, send_transaction_response, casts, starts_server, starts_client,
  module_of,
}
use elixir_sippet.Transaction.Key.{
  Key, client_key, server_key, via_branch, cseq_method, to_response, client_key_of_request,
}
use elixir_sippet.Transaction.{incoming_request, incoming_response, outgoing_response}
use elixir_sippet.Value.{atom, one, many, via, contact, cseq, binary}
use elixir_sippet.Tests.Transactions.{invite, ack}

abbrev branch : Bytes
branch = codes "z9hG4bK776asdhds"

abbrev host : Bytes
host = codes "pc33.atlanta.com"

topmost : via_branch (header_value via_name invite.headers) ≡ some (branch, host, pos 5060)
unfolding via_branch header_value
topmost = refl

ack_via : header_value via_name ack.headers ≡ header_value via_name invite.headers
unfolding header_value
ack_via = refl

cseq_invite : cseq_method (header_value cseq_name invite.headers) ≡ some invite.method
unfolding cseq_method header_value
cseq_invite = refl

answered : to_response (codes "a6c85cf") 100 invite ≡ some (trying_response invite)
unfolding to_response trying_response
answered = refl

nothing_runs : (key : Key) → lookup key [] ≡ none
unfolding lookup
nothing_runs key = refl

client_branch : client_key_of_request invite ≡ some (client_key branch (atom (codes "invite")))
unfolding client_key_of_request
client_branch = refl

receive_transport_request-reaches_example :
    let opened = start_server (server_key branch (atom (codes "invite")) (host, pos 5060)) 7 [] in
    (receive_transport_request invite 7 [] ≡ some (opened, starts_server Router.invite 7))
    × (receive_transport_request invite 8 opened ≡ some (opened, casts 7 (incoming_request invite)))
    × (receive_transport_request ack 8 opened ≡ some (opened, casts 7 (incoming_request ack)))
    × (send_transaction_response (trying_response invite) opened
        ≡ some (casts 7 (outgoing_response (trying_response invite))))
receive_transport_request-reaches_example =
    receive_transport_request-reaches invite branch host (pos 5060) 7 [] refl topmost
      (nothing_runs (server_key branch (atom (codes "invite")) (host, pos 5060)))
      (nothing_runs (server_key branch (atom (codes "ack")) (host, pos 5060))) ack (codes "a6c85cf")
      100 8 (trying_response invite) refl ack_via answered cseq_invite

receive_transport_response-reaches_example :
    let key = client_key branch (atom (codes "invite")) in
    (send_transaction_request invite 7 []
      ≡ some (register key 7 [], starts_client (module_of invite.method) 7))
    × (receive_transport_response (trying_response invite) (register key 7 [])
        ≡ some (casts 7 (incoming_response (trying_response invite))))
receive_transport_response-reaches_example =
    receive_transport_response-reaches invite (client_key branch (atom (codes "invite"))) 7 []
      (codes "a6c85cf") 100 (trying_response invite) client_branch
      (nothing_runs (client_key branch (atom (codes "invite")))) answered cseq_invite

-- A request that came from behind a translator of addresses.
abbrev translated : From
translated = record {
  protocol = atom (codes "udp");
  host = codes "192.0.2.1";
  port = pos 5062;
  port_text = codes "5062";
}

abbrev reading : Sippet
reading = record { protocol_reliable = λ protocol. some false; to_integer = λ s. some (pos 5062) }

abbrev prepared : Request
prepared = record {
  method = atom (codes "invite");
  request_uri = codes "sip:bob@biloxi.com";
  headers =
      (
        via_name,
        some (
            many (
              via (2, 0) (atom (codes "udp")) (codes "pc33.atlanta.com") (pos 5060)
                ((codes "branch", codes "z9hG4bK776asdhds")
                  ∷ (codes "received", codes "192.0.2.1")
                  ∷ (codes "rport", codes "5062")
                  ∷ [])
              ∷ [])),
      )
      ∷ (to_name, some (one (contact (codes "Bob") (codes "sip:bob@biloxi.com") [])))
      ∷ (
        from_name,
        some (
            one (
              contact (codes "Alice") (codes "sip:alice@atlanta.com")
                ((codes "tag", codes "1928301774") ∷ []))),
      )
      ∷ (call_id_name, some (one (binary (codes "a84b4c76e66710@pc33.atlanta.com"))))
      ∷ (cseq_name, some (one (cseq (pos 314159) (atom (codes "invite")))))
      ∷ [];
  source = some (atom (codes "udp4"));
  source_peer = some (codes "192.0.2.1", pos 5062);
}
