-- ===== src/Transaction/Server.antt =====
-- lib/sippet/transactions/server.ex: what the two server transactions share.
pub mod Invite
pub mod NonInvite
pub mod Target
use elixir_sippet.Base.Int.{ℤ}
use elixir_sippet.Base.{List, [], ◌∷◌, Option, none, some, Bytes, codes, equal, if◌then◌else◌}
use elixir_sippet.Transaction.Message.{Request, Response, Sippet, header_value, via_name}
use elixir_sippet.Transaction.Timers.{Timers}
use elixir_sippet.Transaction.{
  Reason, timeout, Effect, send_response, receive_error, Event, mail, terminate, Callback, stop,
  raises, normal, shutdown,
}
use elixir_sippet.Value.{Name, Value, many, via, Params, map_get}

-- `Server.State`, with the entry that its `extras` may have.
pub record ServerState : Type 0 where
  pub request : Request
  pub sippet : Sippet
  pub timers : Timers
  pub last_response : Option Response

-- `State.new`
unfoldable pub new_server : Request → Sippet → Timers → ServerState
new_server request sippet timers = record {
  request = request;
  sippet = sippet;
  timers = timers;
  last_response = none;
}

-- The host for the response: `received`, where it is there.
unfoldable pub response_host : Params → Bytes → Bytes
unfolding map_get
response_host params host = elim (map_get (codes "received") params) [
  | none ↦ host
  | some received ↦ received
]

-- The port for the response: `rport`, where it is there and not empty.
unfoldable pub response_port : Sippet → Params → ℤ → Option ℤ
unfolding map_get
response_port sippet params port = elim (map_get (codes "rport") params) [
  | none ↦ some port
  | some rport ↦ if equal rport [] then some port else sippet.to_integer rport
]

-- The response with the target that its topmost Via gives, if it has one; `none` is an exception.
unfoldable pub via_target : Sippet → Name → Option Value → Response → Option Response
unfolding response_host response_port
via_target sippet source (some (many (via version protocol host port params ∷ rest))) response =
    elim (response_port sippet params port) [
      | none ↦ none
      | some number ↦
          some (record response { target = some (source, response_host params host, number) })
    ]
via_target sippet source value response = some response

-- `ensure_response_target`, by the target of the response and the source of the request.
unfoldable pub ensure_by :
    {T : Type 0} → Option T → Option Name → Sippet → Response → Request → Option Response
unfolding via_target header_value
ensure_by none (some source) sippet response request =
    via_target sippet source (header_value via_name response.headers)
      (record response { source_peer = request.source_peer })
ensure_by target source sippet response request = some response

-- `ensure_response_target`
unfoldable pub ensure_response_target : Sippet → Response → Request → Option Response
unfolding ensure_by
ensure_response_target sippet response request =
    ensure_by response.target request.source sippet response request

module _ {S : Type 0} where
  -- `send_response`, in front of what the callback returns for the new data.
  unfoldable pub responding :
      (ServerState → Callback S ServerState)
      → Response
      → ServerState
      → List Effect × Callback S ServerState
  unfolding ensure_response_target
  responding returns response state =
      elim (ensure_response_target state.sippet response state.request) [
        | none ↦ ([], raises)
        | some ensured ↦
            (send_response ensured ∷ [], returns (record state { last_response = some ensured }))
      ]

  -- `shutdown`
  unfoldable pub shut_down : Reason → ServerState → List Effect × Callback S ServerState
  shut_down reason state = (receive_error reason ∷ [], stop shutdown state)

  -- `timeout`
  unfoldable pub time_out : ServerState → List Effect × Callback S ServerState
  unfolding shut_down
  time_out state = shut_down timeout state

  -- `unhandled_event`
  unfoldable pub unhandled_event : Event → ServerState → List Effect × Callback S ServerState
  unhandled_event (mail terminate) state = ([], stop normal state)
  unhandled_event event state = ([], stop shutdown state)
