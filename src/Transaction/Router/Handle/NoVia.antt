-- ===== src/Transaction/Router/Handle/NoVia.antt =====
-- lib/sippet/router.ex: a request without a Via.
use elixir_sippet.Base.{ℕ, false, [], Option, none, some, Bytes, ◌≡◌, refl}
use elixir_sippet.Transaction.Key.Related.{fetch_header-set_header_same}
use elixir_sippet.Transaction.Key.{server_key_of_request, via_branch}
use elixir_sippet.Transaction.Message.{Request, fetch_header, set_header, via_name}
use elixir_sippet.Transaction.Router.Handle.{crashes, parts_of, deliver, handle_request}
use elixir_sippet.Transaction.Router.Received.{From, update_front, update_via, prepare}
use elixir_sippet.Transaction.Router.{Registry, receive_transport_request}
use elixir_sippet.Transaction.Validate.{
  valid, do_validate, validate_message, has_valid_vias, has_valid_via, validate,
}
use elixir_sippet.Value.{Name, many}
use elixir_sippet.Transaction.Router.Handle.Delivered.{is_websocket, header_value-fetched}

module _ (from : From) (source : Option Name) (version : ℕ × ℕ) (body : Option Bytes) (pid : ℕ)
    (registry : Registry) (request : Request) where
  -- The headers that `update_via` makes of headers without a Via.
  abbrev pub with_empty_via : Request
  with_empty_via = record request { headers = set_header via_name (some (many [])) request.headers }

  abbrev emptied : Request
  emptied = record with_empty_via { source = source; source_peer = some (from.host, from.port) }

  via-emptied : fetch_header via_name emptied.headers ≡ some (some (many []))
  via-emptied = fetch_header-set_header_same via_name (some (many [])) request.headers

  prepare-emptied :
      is_websocket from ≡ false
      → fetch_header via_name request.headers ≡ none
      → prepare from source request ≡ some emptied
  unfolding prepare update_via update_front
  prepare-emptied plain absent = rw (prepare, update_via, plain, absent) refl

  receive-emptied : receive_transport_request emptied pid registry ≡ none
  unfolding receive_transport_request server_key_of_request via_branch
  receive-emptied =
      rw (receive_transport_request, header_value-fetched via_name _ emptied via-emptied) refl

  validate-emptied :
      validate_message (parts_of version body with_empty_via) ≡ valid
      → validate (parts_of version body emptied) ≡ valid
  unfolding validate do_validate has_valid_via has_valid_vias
  validate-emptied others =
      rw (validate, others) (rw (do_validate, has_valid_via, via-emptied) refl)

  -- A request without a Via that did not come over a WebSocket raises an exception, where
  -- `validate` without the connection accepts it with the empty list of Via values that
  -- `update_via` puts there.
  pub handle_request-no_via :
      is_websocket from ≡ false
      → fetch_header via_name request.headers ≡ none
      → validate_message (parts_of version body with_empty_via) ≡ valid
      → handle_request from source version body pid registry request ≡ crashes
  unfolding handle_request deliver
  handle_request-no_via plain absent others =
      rw (handle_request, prepare-emptied plain absent)
        (rw (deliver, validate-emptied others, receive-emptied) refl)
