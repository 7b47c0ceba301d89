-- ===== src/Transaction/Server/NonInvite.antt =====
-- lib/sippet/transactions/server/non_invite.ex
pub mod Answers
use elixir_sippet.Base.{ℕ, Bool, ◌==◌, List, [], ◌∷◌, Option, none, some, if◌then◌else◌}
use elixir_sippet.Transaction.Message.{Request, Response, reliable, status_code_class}
use elixir_sippet.Transaction.Server.{ServerState, responding, shut_down, unhandled_event}
use elixir_sippet.Transaction.Timers.{timer, timer_j}
use elixir_sippet.Transaction.{
  Effect, receive_request, Event, mail, state_timeout, incoming_request, outgoing_response, error,
  nil, Callback, keep_state_and_data, keep_state, next_state, stop, raises, normal,
}

pub data State : Type 0 where
  trying proceeding completed : State

abbrev pub Result : Type 0
Result = List Effect × Callback State ServerState

abbrev pub default_timer_j : ℕ
default_timer_j = 32000

-- What `trying` and `proceeding` return behind sending a response; they differ in what they return for a
-- provisional one.
unfoldable pub responded :
    (ServerState → Callback State ServerState) → Response → ServerState → Callback State ServerState
unfolding status_code_class
responded provisional response state =
    if status_code_class response == 1 then provisional state else next_state completed state

-- The clauses of `proceeding` and `completed` for a request that comes again, which need a last response.
unfoldable pub repeated : Option Response → Request → ServerState → Result
unfolding responding unhandled_event
repeated none request state = unhandled_event (mail (incoming_request request)) state
repeated (some last_response) request state =
    responding (λ sent. keep_state_and_data []) last_response state

-- What `completed(:enter, …)` returns.
unfoldable pub completed_actions : Option Bool → ServerState → Callback State ServerState
unfolding timer
completed_actions none state = raises
completed_actions (some is_reliable) state =
    if is_reliable
    then stop normal state
    else keep_state_and_data ((timer state.timers timer_j default_timer_j, nil) ∷ [])

unfoldable pub enter : State → ServerState → Result
unfolding completed_actions reliable
enter trying state = (receive_request state.request ∷ [], keep_state_and_data [])
enter proceeding state = ([], keep_state_and_data [])
enter completed state = ([], completed_actions (reliable state.sippet state.request) state)

unfoldable pub handle : State → Event → ServerState → Result
unfolding responding responded repeated shut_down unhandled_event
handle trying (mail (incoming_request request)) state = ([], keep_state_and_data [])
handle trying (mail (outgoing_response response)) state =
    responding (responded (next_state proceeding) response) response state
handle trying (mail (error reason)) state = shut_down reason state
handle trying event state = unhandled_event event state
handle proceeding (mail (incoming_request request)) state =
    repeated state.last_response request state
handle proceeding (mail (outgoing_response response)) state =
    responding (responded (λ sent. keep_state sent []) response) response state
handle proceeding (mail (error reason)) state = shut_down reason state
handle proceeding event state = unhandled_event event state
handle completed (state_timeout content) state = ([], stop normal state)
handle completed (mail (incoming_request request)) state =
    repeated state.last_response request state
handle completed (mail (error reason)) state = ([], keep_state_and_data [])
handle completed event state = unhandled_event event state
