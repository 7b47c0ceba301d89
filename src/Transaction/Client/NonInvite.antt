-- ===== src/Transaction/Client/NonInvite.antt =====
-- lib/sippet/transactions/client/non_invite.ex. The timers of `send_after` are in the data by their
-- delays; the mail `deadline` and `delay` may reach the process at any time, also from a timer that was
-- cancelled too late.
pub mod Outcomes
use elixir_sippet.Base.{ℕ, ◌*◌, leb, Bool, ◌==◌, List, [], ◌∷◌, Option, none, some, if◌then◌else◌}
use elixir_sippet.Transaction.Client.{ClientState, shut_down, time_out, unhandled_event}
use elixir_sippet.Transaction.Message.{Response, reliable, status_code_class}
use elixir_sippet.Transaction.Timers.{timer, t2, timer_e, timer_f, timer_k}
use elixir_sippet.Transaction.{
  Effect, send_request, receive_response, Event, mail, state_timeout, incoming_response, error,
  deadline, delay, nil, Callback, keep_state_and_data, keep_state, next_state, stop, raises, normal,
}

pub data State : Type 0 where
  trying proceeding completed : State

abbrev pub Result : Type 0
Result = List Effect × Callback State ClientState

abbrev pub default_t2 : ℕ
default_t2 = 4000

abbrev pub default_timer_e : ℕ
default_timer_e = 500

abbrev pub default_timer_f : ℕ
default_timer_f = 32000

abbrev pub default_timer_k : ℕ
default_timer_k = 5000

abbrev pub min : ℕ → ℕ → ℕ
min a b = if leb a b then a else b

-- `start_timers`, by what `reliable?` says; `none` is an exception.
unfoldable pub start_timers : Option Bool → ClientState → Option ClientState
unfolding timer
start_timers none state = none
start_timers (some is_reliable) state =
    let f = timer state.timers timer_f default_timer_f in
    let e = timer state.timers timer_e default_timer_e in
    some (record state {
      deadline_timer = some f;
      retry_timer = if is_reliable then state.retry_timer else some e;
    })

-- `cancel_timers`
unfoldable pub cancel_timers : ClientState → ClientState
cancel_timers state = record state { deadline_timer = none; retry_timer = none }

-- `retry`
unfoldable pub retry : ℕ → ClientState → Result
retry next_wait state =
    (send_request state.request ∷ [], keep_state (record state { retry_timer = some next_wait }) [])

-- The clauses for `{:incoming_response, response}` of `trying` and `proceeding`, which differ in what
-- they return for a provisional response.
unfoldable pub final_or : Callback State ClientState → Response → ClientState → Result
unfolding status_code_class
final_or provisional response state = (
  receive_response response ∷ [],
  if status_code_class response == 1 then provisional else next_state completed state,
)

-- What `trying(:enter, …)` returns behind sending the request.
unfoldable pub trying_data : Option ClientState → Callback State ClientState
trying_data none = raises
trying_data (some state) = keep_state state []

-- What `completed(:enter, …)` returns.
unfoldable pub completed_actions : Option Bool → ClientState → Callback State ClientState
unfolding timer
completed_actions none state = raises
completed_actions (some is_reliable) state =
    if is_reliable
    then stop normal state
    else keep_state state ((timer state.timers timer_k default_timer_k, nil) ∷ [])

unfoldable pub enter : State → ClientState → Result
unfolding start_timers cancel_timers trying_data completed_actions reliable
enter trying state = (
  send_request state.request ∷ [],
  trying_data (start_timers (reliable state.sippet state.request) state),
)
enter proceeding state = ([], keep_state_and_data [])
enter completed state =
    ([], completed_actions (reliable state.sippet state.request) (cancel_timers state))

unfoldable pub handle : State → Event → ClientState → Result
unfolding retry final_or timer shut_down time_out unhandled_event
handle trying (mail deadline) state = time_out state
handle trying (mail (delay last_delay)) state =
    retry (min (last_delay * 2) (timer state.timers t2 default_t2)) state
handle trying (mail (incoming_response response)) state =
    final_or (next_state proceeding state) response state
handle trying (mail (error reason)) state = shut_down reason state
handle trying event state = unhandled_event event state
handle proceeding (mail deadline) state = time_out state
handle proceeding (mail (delay last_delay)) state = retry (timer state.timers t2 default_t2) state
handle proceeding (mail (incoming_response response)) state =
    final_or (keep_state state []) response state
handle proceeding (mail (error reason)) state = shut_down reason state
handle proceeding event state = unhandled_event event state
handle completed (state_timeout content) state = ([], stop normal state)
handle completed (mail (incoming_response response)) state = ([], keep_state_and_data [])
handle completed (mail (error reason)) state = ([], keep_state_and_data [])
handle completed (mail deadline) state = ([], keep_state_and_data [])
handle completed (mail (delay last_delay)) state = ([], keep_state_and_data [])
handle completed event state = unhandled_event event state
