-- ===== src/Transaction/Server/Invite.antt =====
-- lib/sippet/transactions/server/invite.ex. The alias of `init` for ACKs is the registry's.
pub mod Silence
pub mod Answers
pub mod Provisional
use elixir_sippet.Base.{
  ℕ, ◌*◌, ◌+◌, leb, Bool, ◌==◌, List, [], ◌∷◌, Option, none, some, codes, if◌then◌else◌,
}
use elixir_sippet.Transaction.Message.{
  Request, Response, reliable, status_code_class, trying_response, ack_name,
}
use elixir_sippet.Transaction.Server.{ServerState, responding, shut_down, time_out, unhandled_event}
use elixir_sippet.Transaction.Timers.{timer, t2, before_trying, timer_g, timer_h, timer_i}
use elixir_sippet.Transaction.{
  invalid_method, Effect, receive_request, Event, mail, state_timeout, incoming_request,
  outgoing_response, error, Content, waited, still_trying, nil, Callback, keep_state_and_data,
  keep_state, next_state, stop, raises, normal,
}
use elixir_sippet.Value.{Name, atom, same_name}

pub data State : Type 0 where
  proceeding completed confirmed : State

abbrev pub Result : Type 0
Result = List Effect × Callback State ServerState

abbrev pub default_t2 : ℕ
default_t2 = 4000

abbrev pub default_before_trying : ℕ
default_before_trying = 200

abbrev pub default_timer_g : ℕ
default_timer_g = 500

abbrev pub default_timer_h : ℕ
default_timer_h = 32000

abbrev pub default_timer_i : ℕ
default_timer_i = 5000

abbrev pub min : ℕ → ℕ → ℕ
min a b = if leb a b then a else b

abbrev pub invite_name : Name
invite_name = atom (codes "invite")

-- `retry`, which needs a last response.
unfoldable pub retry : Option Response → ℕ → ℕ → ServerState → Result
unfolding responding timer
retry none past_wait passed_time state = ([], raises)
retry (some last_response) past_wait passed_time state =
    let new_delay = min (past_wait * 2) (timer state.timers t2 default_t2) in
    responding
      (λ sent. keep_state_and_data ((new_delay, waited new_delay (passed_time + new_delay)) ∷ []))
      last_response state

-- The clauses of `proceeding` for a request that comes again.
unfoldable pub repeated : Option Response → ServerState → Result
unfolding responding
repeated none state = ([], keep_state_and_data [])
repeated (some last_response) state =
    responding (λ sent. keep_state_and_data []) last_response state

-- What `proceeding` returns behind sending a response.
unfoldable pub responded : Response → ServerState → Callback State ServerState
unfolding status_code_class
responded response state =
    let class = status_code_class response in
    if class == 1
    then keep_state state []
    else if class == 2
    then stop normal state
    else next_state completed state

-- `completed(:state_timeout, …)`
unfoldable pub completed_timeout : Content → ServerState → Result
unfolding timer time_out retry
completed_timeout (waited past_wait passed_time) state =
    if leb (timer state.timers timer_h default_timer_h) passed_time
    then time_out state
    else retry state.last_response past_wait passed_time state
completed_timeout content state = ([], raises)

-- `completed(:cast, {:incoming_request, …}, …)`, which needs a last response.
unfoldable pub completed_request : Option Response → Request → ServerState → Result
unfolding responding shut_down unhandled_event same_name
completed_request none request state = unhandled_event (mail (incoming_request request)) state
completed_request (some last_response) request state =
    if same_name request.method invite_name
    then responding (λ sent. keep_state_and_data []) last_response state
    else if same_name request.method ack_name
    then ([], next_state confirmed state)
    else shut_down invalid_method state

-- The actions of `completed(:enter, …)`
unfoldable pub completed_actions : Option Bool → ServerState → Callback State ServerState
unfolding timer
completed_actions none state = raises
completed_actions (some is_reliable) state =
    let g = timer state.timers timer_g default_timer_g in
    let h = timer state.timers timer_h default_timer_h in
    keep_state_and_data ((if is_reliable then (h, waited h h) else (g, waited g g)) ∷ [])

-- What `confirmed(:enter, …)` returns.
unfoldable pub confirmed_actions : Option Bool → ServerState → Callback State ServerState
unfolding timer
confirmed_actions none state = raises
confirmed_actions (some is_reliable) state =
    if is_reliable
    then stop normal state
    else keep_state_and_data ((timer state.timers timer_i default_timer_i, nil) ∷ [])

unfoldable pub enter : State → ServerState → Result
unfolding completed_actions confirmed_actions timer reliable
enter proceeding state = (
  receive_request state.request ∷ [],
  keep_state_and_data ((timer state.timers before_trying default_before_trying, still_trying) ∷ []),
)
enter completed state = ([], completed_actions (reliable state.sippet state.request) state)
enter confirmed state = ([], confirmed_actions (reliable state.sippet state.request) state)

unfoldable pub handle : State → Event → ServerState → Result
unfolding responding repeated responded completed_timeout completed_request shut_down
    unhandled_event trying_response
handle proceeding (state_timeout still_trying) state =
    responding (λ sent. keep_state sent []) (trying_response state.request) state
handle proceeding (mail (incoming_request request)) state = repeated state.last_response state
handle proceeding (mail (outgoing_response response)) state =
    responding (responded response) response state
handle proceeding (mail (error reason)) state = shut_down reason state
handle proceeding event state = unhandled_event event state
handle completed (state_timeout content) state = completed_timeout content state
handle completed (mail (incoming_request request)) state =
    completed_request state.last_response request state
handle completed (mail (error reason)) state = shut_down reason state
handle completed event state = unhandled_event event state
handle confirmed (state_timeout content) state = ([], stop normal state)
handle confirmed (mail (incoming_request request)) state = ([], keep_state_and_data [])
handle confirmed (mail (error reason)) state = ([], keep_state_and_data [])
handle confirmed event state = unhandled_event event state
