-- ===== src/Transaction/Client/Invite.antt =====
-- lib/sippet/transactions/client/invite.ex
pub mod Silence
pub mod Outcomes
pub mod Ack
pub mod Resend
use elixir_sippet.Base.Int.{ℤ, pos}
use elixir_sippet.Base.{
  ℕ, ◌*◌, ◌+◌, leb, Bool, ◌==◌, List, [], ◌∷◌, Option, none, some, Bytes, if◌then◌else◌,
}
use elixir_sippet.Transaction.Client.{ClientState, shut_down, time_out, unhandled_event}
use elixir_sippet.Transaction.Message.{
  HeaderMap, Request, Response, fetch_header, has_header, header_value, set_header, copy_header,
  copy_if_there, reliable, status_code_class, via_name, to_name, from_name, call_id_name, cseq_name,
  route_name, max_forwards_name, ack_name, tag,
}
use elixir_sippet.Transaction.Timers.{timer, timer_a, timer_b, timer_d}
use elixir_sippet.Transaction.{
  Effect, send_request, receive_response, Event, mail, state_timeout, incoming_response, error,
  waited, nil, Callback, keep_state_and_data, keep_state, next_state, stop, raises, normal,
}
use elixir_sippet.Value.{Value, one, contact, cseq, integer, map_get, map_put}

pub data State : Type 0 where
  calling proceeding completed : State

abbrev pub Result : Type 0
Result = List Effect × Callback State ClientState

abbrev pub default_timer_a : ℕ
default_timer_a = 500

abbrev pub default_timer_b : ℕ
default_timer_b = 32000

abbrev pub default_timer_d : ℕ
default_timer_d = 32000

-- `retry`
unfoldable pub retry : ℕ → ℕ → ClientState → Result
retry past_wait passed_time state =
    let new_delay = past_wait * 2 in
    (
      send_request state.request ∷ [],
      keep_state_and_data ((new_delay, waited new_delay (passed_time + new_delay)) ∷ []),
    )

-- `{sequence, _method} = request.headers.cseq`; the header has the form that `ParseCseq` makes.
unfoldable pub sequence_of : Option (Option Value) → Option ℤ
sequence_of (some (some (one (cseq sequence method)))) = some sequence
sequence_of value = none

-- The tag that `{_, _, %{"tag" => to_tag}}` takes from a header.
unfoldable pub to_tag_of : Option Value → Option Bytes
unfolding map_get
to_tag_of (some (one (contact display_name uri params))) = map_get tag params
to_tag_of value = none

-- `{display_name, uri, params |> Map.put("tag", to_tag)}`, which raises on another form.
unfoldable pub put_tag : Bytes → Option Value → Option Value
unfolding map_put
put_tag to_tag (some (one (contact display_name uri params))) =
    some (one (contact display_name uri (map_put tag to_tag params)))
put_tag to_tag value = none

-- The headers of the ACK in front of `cseq`
unfoldable pub ack_headers : Request → HeaderMap
unfolding set_header header_value
ack_headers request = copy_header call_id_name request.headers (
    copy_header to_name request.headers (
      copy_header from_name request.headers (
        set_header max_forwards_name (some (one (integer (pos 70))))
          (copy_header via_name request.headers []))))

-- The headers with the tag of the response on `to`; `none` is an exception.
unfoldable pub tag_headers : Option (Option Value) → HeaderMap → Option HeaderMap
unfolding to_tag_of put_tag set_header header_value
tag_headers none headers = none
tag_headers (some response_to) headers = elim (to_tag_of response_to) [
  | none ↦ some headers
  | some to_tag ↦ elim (put_tag to_tag (header_value to_name headers)) [
    | none ↦ none
    | some tagged ↦ some (set_header to_name (some tagged) headers)
  ]
]

-- `build_ack`; `none` is an exception.
unfoldable pub build_ack : Request → Response → Option Request
unfolding sequence_of ack_headers tag_headers fetch_header set_header has_header header_value
build_ack request last_response = elim (sequence_of (fetch_header cseq_name request.headers)) [
  | none ↦ none
  | some sequence ↦
      let with_cseq =
        set_header cseq_name (some (one (cseq sequence ack_name))) (ack_headers request) in
      elim (tag_headers (fetch_header to_name last_response.headers)
        (copy_if_there route_name request.headers with_cseq)) [
          | none ↦ none
          | some tagged ↦ some (record {
            method = ack_name;
            request_uri = request.request_uri;
            headers = copy_if_there route_name request.headers tagged;
            source = none;
            source_peer = none;
          })
        ]
]

-- The clauses for `{:incoming_response, response}` of `calling` and `proceeding`, which differ in what
-- they return for a provisional response.
unfoldable pub final_or : Callback State ClientState → Response → ClientState → Result
unfolding status_code_class
final_or provisional response state =
    let class = status_code_class response in
    (
      receive_response response ∷ [],
      if class == 1
          then provisional
          else if class == 2
          then stop normal state
          else next_state completed (record state { last_response = some response }),
    )

-- The actions of `calling(:enter, …)`
unfoldable pub calling_actions : Option Bool → ClientState → Callback State ClientState
unfolding timer
calling_actions none state = raises
calling_actions (some is_reliable) state =
    let a = timer state.timers timer_a default_timer_a in
    let b = timer state.timers timer_b default_timer_b in
    keep_state_and_data ((if is_reliable then (b, waited b b) else (a, waited a a)) ∷ [])

-- What `completed(:enter, …)` returns behind sending the ACK.
unfoldable pub completed_actions : Option Bool → ClientState → Callback State ClientState
unfolding timer
completed_actions none state = raises
completed_actions (some is_reliable) state =
    if is_reliable
    then stop normal state
    else keep_state state ((timer state.timers timer_d default_timer_d, nil) ∷ [])

-- `completed(:enter, …)` with the ACK, if it can be built
unfoldable pub acknowledge : Option Request → ClientState → Result
unfolding completed_actions reliable
acknowledge none state = ([], raises)
acknowledge (some ack) state = (
  send_request ack ∷ [],
  completed_actions (reliable state.sippet state.request) (record state { ack = some ack }),
)

-- `extras.last_response`, which raises where there is none
unfoldable pub last_ack : Request → Option Response → Option Request
unfolding build_ack
last_ack request none = none
last_ack request (some response) = build_ack request response

unfoldable pub enter : State → ClientState → Result
unfolding calling_actions acknowledge last_ack reliable
enter calling state =
    (send_request state.request ∷ [], calling_actions (reliable state.sippet state.request) state)
enter proceeding state = ([], keep_state_and_data [])
enter completed state = acknowledge (last_ack state.request state.last_response) state

-- The clause of `completed` for a response, which needs the ACK.
unfoldable pub again : Option Request → Response → ClientState → Result
unfolding unhandled_event status_code_class
again none response state = unhandled_event (mail (incoming_response response)) state
again (some ack) response state = (
  if leb 3 (status_code_class response) then send_request ack ∷ [] else [],
  keep_state_and_data [],
)

unfoldable pub handle : State → Event → ClientState → Result
unfolding retry final_or again timer shut_down time_out unhandled_event
handle calling (state_timeout (waited past_wait passed_time)) state =
    if leb (timer state.timers timer_b default_timer_b) passed_time
    then time_out state
    else retry past_wait passed_time state
handle calling (mail (incoming_response response)) state =
    final_or (next_state proceeding state) response state
handle calling (mail (error reason)) state = shut_down reason state
handle calling event state = unhandled_event event state
handle proceeding (mail (incoming_response response)) state =
    final_or (keep_state state []) response state
handle proceeding (mail (error reason)) state = shut_down reason state
handle proceeding event state = unhandled_event event state
handle completed (state_timeout content) state = ([], stop normal state)
handle completed (mail (incoming_response response)) state = again state.ack response state
handle completed (mail (error reason)) state = ([], keep_state_and_data [])
handle completed event state = unhandled_event event state
