-- ===== src/Transaction/Client.antt =====
-- lib/sippet/transactions/client.ex: what the two client transactions share.
pub mod Invite
pub mod NonInvite
use elixir_sippet.Base.{ℕ, List, [], ◌∷◌, Option, none}
use elixir_sippet.Transaction.Message.{Request, Response, Sippet}
use elixir_sippet.Transaction.Timers.{Timers}
use elixir_sippet.Transaction.{
  Reason, timeout, Effect, receive_error, Event, mail, terminate, Callback, stop, normal, shutdown,
}

-- `Client.State`, with the entries that its `extras` may have.
pub record ClientState : Type 0 where
  pub request : Request
  pub sippet : Sippet
  pub timers : Timers
  pub last_response : Option Response
  pub ack : Option Request
  pub deadline_timer : Option ℕ
  pub retry_timer : Option ℕ

-- `State.new`
unfoldable pub new_client : Request → Sippet → Timers → ClientState
new_client request sippet timers = record {
  request = request;
  sippet = sippet;
  timers = timers;
  last_response = none;
  ack = none;
  deadline_timer = none;
  retry_timer = none;
}

module _ {S : Type 0} where
  -- `shutdown`
  unfoldable pub shut_down : Reason → ClientState → List Effect × Callback S ClientState
  shut_down reason state = (receive_error reason ∷ [], stop shutdown state)

  -- `timeout`
  unfoldable pub time_out : ClientState → List Effect × Callback S ClientState
  unfolding shut_down
  time_out state = shut_down timeout state

  -- `unhandled_event`
  unfoldable pub unhandled_event : Event → ClientState → List Effect × Callback S ClientState
  unhandled_event (mail terminate) state = ([], stop normal state)
  unhandled_event event state = ([], stop shutdown state)
