-- ===== src/Transaction/Client/Invite/Outcomes.antt =====
-- lib/sippet/transactions/client/invite.ex: what the core learns of an INVITE.
use elixir_sippet.Base.{
  ℕ, leb, ◌+◌, ◌≤◌, Bool, true, false, Bool-cases, List, [], ◌∷◌, Option, none, some, ◌≡◌, inl, inr,
  refl, arith, ◌==◌,
}
use elixir_sippet.Transaction.Client.Invite.{
  State, calling, proceeding, completed, enter, handle, acknowledge, last_ack, final_or, again,
  completed_actions, default_timer_b,
}
use elixir_sippet.Transaction.Client.{ClientState, unhandled_event}
use elixir_sippet.Transaction.Message.{Request, Response, reliable, status_code_class}
use elixir_sippet.Transaction.Runs.Outcomes.{outcomes, outcomes-run}
use elixir_sippet.Transaction.Timers.{timer, timer_b}
use elixir_sippet.Transaction.{
  keep_state, next_state, Process, running, stopped, crashed, Input, receives, elapses, start, step,
  run, handled, joined, receive_response, waited, incoming_response, entered, Effect, send_request,
  Timeout, state_timeout,
}

-- The core may learn one outcome in `calling` and `proceeding`, and none behind them.
abbrev pub left : Process State ClientState → ℕ
left (running calling state pending) = 1
left (running proceeding state pending) = 1
left (running completed state pending) = 0
left (stopped reason state) = 0
left crashed = 0

abbrev spent : List Effect × Process State ClientState → ℕ
spent (effects, p) = outcomes effects + left p

spent-completed_actions :
    (is_reliable : Option Bool) (ack : Request) (entry state : ClientState)
    → spent (
        entered enter handle completed entry
          (send_request ack ∷ [], completed_actions is_reliable state))
      ≡ 0
unfolding completed_actions
spent-completed_actions none ack entry state = refl
spent-completed_actions (some true) ack entry state = refl
spent-completed_actions (some false) ack entry state = refl

spent-acknowledge :
    (ack : Option Request) (state : ClientState)
    → spent (entered enter handle completed state (acknowledge ack state)) ≡ 0
unfolding acknowledge
spent-acknowledge none state = refl
spent-acknowledge (some ack) state =
    spent-completed_actions (reliable state.sippet state.request) ack state
      (record state { ack = some ack })

-- Entering `completed` tells the core nothing.
spent-completed : (state : ClientState) → spent (start enter handle completed state) ≡ 0
unfolding start enter
spent-completed state = spent-acknowledge (last_ack state.request state.last_response) state

-- A final response in front of `completed` is the one outcome.
spent-joined :
    (r : Response) (state : ClientState)
    → spent (joined enter handle (receive_response r ∷ []) (start enter handle completed state)) ≤ 1
spent-joined r state = ground (arith, spent-completed state)

-- A response in `calling` or `proceeding` is the one outcome, or provisional.
spent-calling :
    (r : Response) (state : ClientState) (pending : Option Timeout)
    → spent (
        handled enter handle calling state pending (final_or (next_state proceeding state) r state))
      ≤ 1
unfolding final_or
spent-calling r state pending =
    let after = record state { last_response = some r } in
    elim (Bool-cases (status_code_class r == 1)) [
      | inl provisional ↦ unfold start enter in rw provisional (ground arith)
      | inr final ↦ elim (Bool-cases (status_code_class r == 2)) [
        | inl success ↦ rw (final, success) (ground arith)
        | inr failure ↦ rw (final, failure) (spent-joined r after)
      ]
    ]

spent-proceeding :
    (r : Response) (state : ClientState) (pending : Option Timeout)
    → spent (handled enter handle proceeding state pending (final_or (keep_state state []) r state))
      ≤ 1
unfolding final_or
spent-proceeding r state pending =
    let after = record state { last_response = some r } in
    elim (Bool-cases (status_code_class r == 1)) [
      | inl provisional ↦ rw provisional (ground arith)
      | inr final ↦ elim (Bool-cases (status_code_class r == 2)) [
        | inl success ↦ rw (final, success) (ground arith)
        | inr failure ↦ rw (final, failure) (spent-joined r after)
      ]
    ]

-- A response in `completed` is not passed on.
spent-again :
    (ack : Option Request) (r : Response) (state : ClientState) (pending : Option Timeout)
    → spent (handled enter handle completed state pending (again ack r state)) ≤ 0
unfolding again unhandled_event
spent-again none r state pending = omega arith
spent-again (some ack) r state pending = elim (Bool-cases (leb 3 (status_code_class r))) [
  | inl failure ↦ rw failure (omega arith)
  | inr other ↦ rw other (omega arith)
]

spent-waited :
    (w q : ℕ) (state : ClientState)
    → spent (
        handled enter handle calling state none (handle calling (state_timeout (waited w q)) state))
      ≤ 1
unfolding handle
spent-waited w q state = elim (Bool-cases (leb (timer state.timers timer_b default_timer_b) q)) [
  | inl over ↦ rw over (omega arith)
  | inr under ↦ rw under (omega arith)
]

step-left :
    (p : Process State ClientState) (input : Input) → spent (step enter handle p input) ≤ left p
unfolding step handle
step-left (running calling state pending) (receives (incoming_response r)) =
    spent-calling r state pending
step-left (running proceeding state pending) (receives (incoming_response r)) =
    spent-proceeding r state pending
step-left (running completed state pending) (receives (incoming_response r)) =
    spent-again state.ack r state pending
step-left (running calling state (some (time, waited w q))) elapses = spent-waited w q state
step-left (running calling state (some (time, _))) elapses = omega arith
step-left (running calling state pending) (receives _) = omega arith
step-left (running proceeding state pending) (receives _) = omega arith
step-left (running completed state pending) (receives _) = omega arith
step-left (running _ state none) elapses = omega arith
step-left (running proceeding state (some (time, _))) elapses = omega arith
step-left (running completed state (some (time, _))) elapses = omega arith
step-left (stopped reason state) input = omega arith
step-left crashed input = omega arith

left-le-one : (p : Process State ClientState) → left p ≤ 1
left-le-one (running calling state pending) = omega arith
left-le-one (running proceeding state pending) = omega arith
left-le-one (running completed state pending) = omega arith
left-le-one (stopped reason state) = omega arith
left-le-one crashed = omega arith

-- Whatever reaches it, in whatever order, a client transaction of an INVITE passes at most one
-- outcome to the core, a final response or an error, until it ends, with an exception or without
-- one.
pub outcomes-le-one :
    (state : ClientState) (inputs : List Input)
    → outcomes (run enter handle (start enter handle calling state).1 inputs).0 ≤ 1
outcomes-le-one state inputs =
    let p = (start enter handle calling state).1 in
    omega (arith, outcomes-run enter handle left step-left p inputs, left-le-one p)
