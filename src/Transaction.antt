-- ===== src/Transaction.antt =====
-- lib/sippet/transactions: the processes of the transactions, as `gen_statem` of Erlang's standard
-- library runs a callback module with state functions and state enter calls. A transaction is a
-- function for the enter calls and one for the events; what it sends is a list of effects.
pub mod Message
pub mod Timers
pub mod Validate
pub mod Client
pub mod Server
pub mod Key
pub mod Router
pub mod Runs
use elixir_sippet.Base.{ℕ, List, [], ◌∷◌, ◌++◌, Option, none, some, Bytes}
use elixir_sippet.Transaction.Message.{Request, Response}

-- The reason of an error for the core.
pub data Reason : Type 0 where
  timeout : Reason
  invalid_method : Reason
  transport : Bytes → Reason

-- What a callback does beside its result: `Router.send_transport_message`, and `Router.to_core`.
pub data Effect : Type 0 where
  send_request : Request → Effect
  send_response : Response → Effect
  receive_request : Request → Effect
  receive_response : Response → Effect
  receive_error : Reason → Effect

-- What reaches the process: the casts of Transactions.Client and Transactions.Server, the messages of
-- `send_after`, and any other message.
pub data Mail : Type 0 where
  incoming_request : Request → Mail
  incoming_response : Response → Mail
  outgoing_response : Response → Mail
  error : Reason → Mail
  terminate : Mail
  deadline : Mail
  delay : ℕ → Mail
  other : Mail

-- The contents of the state timeouts; `waited` is `{past_wait, passed_time}`, and `nil` is `nil`.
pub data Content : Type 0 where
  waited : ℕ → ℕ → Content
  still_trying : Content
  nil : Content

pub data Event : Type 0 where
  mail : Mail → Event
  state_timeout : Content → Event

-- The reason of `{:stop, reason, data}`.
pub data Stop : Type 0 where
  normal : Stop
  shutdown : Stop

-- The action `{:state_timeout, time, content}`
abbrev pub Timeout : Type 0
Timeout = ℕ × Content

-- What a callback returns; `raises` is an exception.
pub data Callback (S : Type 0) (D : Type 0) : Type 0 where
  keep_state_and_data : List Timeout → Callback S D
  keep_state : D → List Timeout → Callback S D
  next_state : S → D → Callback S D
  stop : Stop → D → Callback S D
  raises : Callback S D

-- A process with its state, its data and the state timeout that is pending, if one is. An exception ends
-- it, and `supervised_run` says what the supervisor makes of that.
pub data Process (S : Type 0) (D : Type 0) : Type 0 where
  running : S → D → Option Timeout → Process S D
  stopped : Stop → D → Process S D
  crashed : Process S D

-- A later state timeout takes the place of the pending one.
abbrev pub latest : Option Timeout → List Timeout → Option Timeout
latest pending [] = pending
latest pending (t ∷ ts) = latest (some t) ts

-- What a process meets: mail, or the end of the pending state timeout.
pub data Input : Type 0 where
  receives : Mail → Input
  elapses : Input

module _ {S D : Type 0} (enter : S → D → List Effect × Callback S D)
    (handle : S → Event → D → List Effect × Callback S D) where
  -- The process behind an enter call, which may not change the state again.
  abbrev pub entered : S → D → List Effect × Callback S D → List Effect × Process S D
  entered s d (effects, keep_state_and_data actions) = (effects, running s d (latest none actions))
  entered s d (effects, keep_state d' actions) = (effects, running s d' (latest none actions))
  entered s d (effects, next_state s' d') = (effects, crashed)
  entered s d (effects, stop reason d') = (effects, stopped reason d')
  entered s d (effects, raises) = (effects, crashed)

  -- `start_link`
  unfoldable pub start : S → D → List Effect × Process S D
  start s d = entered s d (enter s d)

  -- The effects of the callback stand in front of those of the enter call.
  abbrev pub joined : List Effect → List Effect × Process S D → List Effect × Process S D
  joined effects (later, p) = (effects ++ later, p)

  -- The process behind a callback for an event. A new state cancels the state timeout.
  abbrev pub handled :
      S → D → Option Timeout → List Effect × Callback S D → List Effect × Process S D
  handled s d pending (effects, keep_state_and_data actions) =
      (effects, running s d (latest pending actions))
  handled s d pending (effects, keep_state d' actions) =
      (effects, running s d' (latest pending actions))
  handled s d pending (effects, next_state s' d') = joined effects (start s' d')
  handled s d pending (effects, stop reason d') = (effects, stopped reason d')
  handled s d pending (effects, raises) = (effects, crashed)

  unfoldable pub step : Process S D → Input → List Effect × Process S D
  unfolding start
  step (running s d pending) (receives m) = handled s d pending (handle s (mail m) d)
  step (running s d none) elapses = ([], running s d none)
  step (running s d (some (time, content))) elapses =
      handled s d none (handle s (state_timeout content) d)
  step (stopped reason d) input = ([], stopped reason d)
  step crashed input = ([], crashed)

  unfoldable pub run : Process S D → List Input → List Effect × Process S D
  unfolding step
  run p [] = ([], p)
  run p (input ∷ inputs) =
      let (effects, p') = step p input in
      let (later, last) = run p' inputs in (effects ++ later, last)

  -- What is left behind a step under the supervisor: an exception is no normal end, so a process with
  -- `restart: :transient` is started again, and `restarted` is what comes of that.
  abbrev pub revived :
      List Effect × Process S D → List Effect × Process S D → List Effect × Process S D
  revived (again, p) (effects, crashed) = (effects ++ again, p)
  revived restarted (effects, running s d pending) = (effects, running s d pending)
  revived restarted (effects, stopped reason d) = (effects, stopped reason d)

  -- A run under the supervisor
  unfoldable pub supervised_run :
      List Effect × Process S D → Process S D → List Input → List Effect × Process S D
  unfolding step
  supervised_run restarted p [] = ([], p)
  supervised_run restarted p (input ∷ inputs) =
      let (effects, p') = revived restarted (step p input) in
      let (later, last) = supervised_run restarted p' inputs in (effects ++ later, last)

-- How long the process waits for the end of its state timeout.
abbrev pub wait : {S D : Type 0} → Process S D → ℕ
wait (running s d (some (time, content))) = time
wait _ = 0
