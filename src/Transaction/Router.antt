-- ===== src/Transaction/Router.antt =====
-- lib/sippet/router.ex: which transaction a message goes to. The registry, of Elixir's standard library, is
-- the list of the keys of the transactions that run, with their processes. A message comes here parsed,
-- with its Via updated, and valid; the sharded mode is left out.
pub mod Reached
pub mod Received
pub mod Handle
use elixir_sippet.Base.{ℕ, List, [], ◌∷◌, Option, none, some, if◌then◌else◌}
use elixir_sippet.Transaction.Key.{
  Key, server_key, client_key, same_key, client_key_of_request, client_key_of_response,
  server_key_of_request, server_key_of_response,
}
use elixir_sippet.Transaction.Message.{Request, Response, ack_name}
use elixir_sippet.Transaction.Server.Invite.{invite_name}
use elixir_sippet.Transaction.{Mail, incoming_request, incoming_response, outgoing_response}
use elixir_sippet.Value.{Name, same_name}

abbrev pub Registry : Type 0
Registry = List (Key × ℕ)

-- `Registry.lookup`
unfoldable pub lookup : Key → Registry → Option ℕ
unfolding same_key
lookup key [] = none
lookup key ((k, pid) ∷ registry) = if same_key k key then some pid else lookup key registry

-- `Registry.register`, which leaves a key that is there as it is.
unfoldable pub register : Key → ℕ → Registry → Registry
unfolding lookup
register key pid registry = elim (lookup key registry) [
  | none ↦ (key, pid) ∷ registry
  | some other ↦ registry
]

-- The modules of the transactions
pub data Module : Type 0 where
  invite non_invite : Module

-- Where a message goes. The two atoms are errors for the caller.
pub data Delivery : Type 0 where
  core_request : Request → Delivery
  core_response : Response → Delivery
  starts_client : Module → ℕ → Delivery
  starts_server : Module → ℕ → Delivery
  casts : ℕ → Mail → Delivery
  already_started : Delivery
  no_transaction : Delivery

-- `case key.method do`
unfoldable pub module_of : Name → Module
unfolding same_name
module_of method = if same_name method invite_name then invite else non_invite

-- `start_server`, with the alias for ACKs that `init` of an INVITE transaction registers.
unfoldable pub start_server : Key → ℕ → Registry → Registry
unfolding register same_name
start_server (server_key branch method sent_by) pid registry =
    let started = register (server_key branch method sent_by) pid registry in
    if same_name method invite_name
    then register (server_key branch ack_name sent_by) pid started
    else started
start_server (client_key branch method) pid registry =
    register (client_key branch method) pid registry

-- `receive_transport_message` of a request with its key
unfoldable pub route_request : Key → Request → ℕ → Registry → Registry × Delivery
unfolding lookup start_server module_of same_name
route_request key request pid registry = elim (lookup key registry) [
  | some running ↦ (registry, casts running (incoming_request request))
  | none ↦
      if same_name request.method ack_name
      then (registry, core_request request)
      else (start_server key pid registry, starts_server (module_of request.method) pid)
]

-- `receive_transport_message` of a request; `pid` is the process that a new transaction gets, and `none` an
-- exception.
unfoldable pub receive_transport_request : Request → ℕ → Registry → Option (Registry × Delivery)
unfolding route_request server_key_of_request
receive_transport_request request pid registry = elim (server_key_of_request request) [
  | none ↦ none
  | some key ↦ some (route_request key request pid registry)
]

-- `receive_transport_message` of a response
unfoldable pub receive_transport_response : Response → Registry → Option Delivery
unfolding lookup client_key_of_response
receive_transport_response response registry = elim (client_key_of_response response) [
  | none ↦ none
  | some key ↦ elim (lookup key registry) [
    | none ↦ some (core_response response)
    | some running ↦ some (casts running (incoming_response response))
  ]
]

-- `send_transaction_request`
unfoldable pub send_transaction_request : Request → ℕ → Registry → Option (Registry × Delivery)
unfolding lookup register client_key_of_request module_of
send_transaction_request request pid registry = elim (client_key_of_request request) [
  | none ↦ none
  | some key ↦ elim (lookup key registry) [
    | some running ↦ some (registry, already_started)
    | none ↦ some (register key pid registry, starts_client (module_of request.method) pid)
  ]
]

-- `send_transaction_response`
unfoldable pub send_transaction_response : Response → Registry → Option Delivery
unfolding lookup server_key_of_response
send_transaction_response response registry = elim (server_key_of_response response) [
  | none ↦ none
  | some key ↦ elim (lookup key registry) [
    | none ↦ some no_transaction
    | some running ↦ some (casts running (outgoing_response response))
  ]
]
