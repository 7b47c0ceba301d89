-- ===== src/Transaction/Router/Handle.antt =====
-- lib/sippet/router.ex: `handle_transport_message_legacy` of a request that the parser returned, and what
-- the validators make of it.
pub mod Delivered
pub mod NoVia
use elixir_sippet.Base.{ℕ, Option, none, some, Bytes}
use elixir_sippet.Transaction.Message.{Request}
use elixir_sippet.Transaction.Router.Received.{From, prepare}
use elixir_sippet.Transaction.Router.{Registry, Delivery, receive_transport_request}
use elixir_sippet.Transaction.Validate.{Reason, valid, invalid, raises, Parts, validate}
use elixir_sippet.Value.{Name}

-- What the router does with a request: it is refused for a reason, or delivered; or a process that has
-- nothing to do with it goes down.
pub data Handled : Type 0 where
  refused : Reason → Handled
  delivered : Registry → Delivery → Handled
  crashes : Handled

-- The parts of a request that are validated.
abbrev pub parts_of : ℕ × ℕ → Option Bytes → Request → Parts
parts_of version body request = record {
  version = version;
  method = some request.method;
  headers = request.headers;
  body = body;
}

-- A request that is prepared is validated and goes to `receive_transport_message`.
unfoldable pub deliver : ℕ × ℕ → Option Bytes → ℕ → Registry → Request → Handled
unfolding validate receive_transport_request
deliver version body pid registry request = elim (validate (parts_of version body request)) [
  | raises ↦ crashes
  | invalid reason ↦ refused reason
  | valid ↦ elim (receive_transport_request request pid registry) [
    | none ↦ crashes
    | some (after, delivery) ↦ delivered after delivery
  ]
]

-- `handle_transport_message_legacy`; `pid` is the process that a new transaction gets.
unfoldable pub handle_request :
    From → Option Name → ℕ × ℕ → Option Bytes → ℕ → Registry → Request → Handled
unfolding prepare deliver
handle_request from source version body pid registry request = elim (prepare from source request) [
  | none ↦ crashes
  | some prepared ↦ deliver version body pid registry prepared
]
