-- ===== src/Transaction/Client/NonInvite/Outcomes.antt =====
-- lib/sippet/transactions/client/non_invite.ex: what the core learns of a request that is no INVITE.
use elixir_sippet.Base.{
  ℕ, ◌+◌, ◌≤◌, Bool, true, false, Bool-cases, List, [], ◌∷◌, Option, none, some, ◌≡◌, inl, inr,
  refl, arith, ◌==◌,
}
use elixir_sippet.Transaction.Client.NonInvite.{
  State, trying, proceeding, completed, enter, handle, completed_actions, final_or, cancel_timers,
}
use elixir_sippet.Transaction.Client.{ClientState}
use elixir_sippet.Transaction.Message.{Response, reliable, status_code_class}
use elixir_sippet.Transaction.Runs.Outcomes.{outcomes, outcomes-run}
use elixir_sippet.Transaction.{
  Effect, receive_response, incoming_response, keep_state, next_state, Timeout, Process, running,
  stopped, crashed, Input, receives, elapses, start, step, run, entered, handled, joined,
}

-- The core may learn one outcome in `trying` and `proceeding`, and none behind them.
abbrev pub left : Process State ClientState → ℕ
left (running trying state pending) = 1
left (running proceeding state pending) = 1
left (running completed state pending) = 0
left (stopped reason state) = 0
left crashed = 0

abbrev spent : List Effect × Process State ClientState → ℕ
spent (effects, p) = outcomes effects + left p

spent-completed_actions :
    (is_reliable : Option Bool) (entry state : ClientState)
    → spent (entered enter handle completed entry ([], completed_actions is_reliable state)) ≡ 0
unfolding completed_actions
spent-completed_actions none entry state = refl
spent-completed_actions (some true) entry state = refl
spent-completed_actions (some false) entry state = refl

spent-completed : (state : ClientState) → spent (start enter handle completed state) ≡ 0
unfolding start enter
spent-completed state =
    spent-completed_actions (reliable state.sippet state.request) state (cancel_timers state)

spent-joined :
    (r : Response) (state : ClientState)
    → spent (joined enter handle (receive_response r ∷ []) (start enter handle completed state)) ≤ 1
spent-joined r state = ground (arith, spent-completed state)

spent-trying :
    (r : Response) (state : ClientState) (pending : Option Timeout)
    → spent
        (handled enter handle trying state pending (final_or (next_state proceeding state) r state))
      ≤ 1
unfolding final_or
spent-trying r state pending = elim (Bool-cases (status_code_class r == 1)) [
  | inl provisional ↦ unfold start enter in rw provisional (ground arith)
  | inr final ↦ rw final (spent-joined r state)
]

spent-proceeding :
    (r : Response) (state : ClientState) (pending : Option Timeout)
    → spent (handled enter handle proceeding state pending (final_or (keep_state state []) r state))
      ≤ 1
unfolding final_or
spent-proceeding r state pending = elim (Bool-cases (status_code_class r == 1)) [
  | inl provisional ↦ rw provisional (ground arith)
  | inr final ↦ rw final (spent-joined r state)
]

step-left :
    (p : Process State ClientState) (input : Input) → spent (step enter handle p input) ≤ left p
unfolding step handle
step-left (running trying state pending) (receives (incoming_response r)) =
    spent-trying r state pending
step-left (running proceeding state pending) (receives (incoming_response r)) =
    spent-proceeding r state pending
step-left (running trying state pending) (receives _) = omega arith
step-left (running proceeding state pending) (receives _) = omega arith
step-left (running completed state pending) (receives (incoming_response r)) = omega arith
step-left (running completed state pending) (receives _) = omega arith
step-left (running trying state none) elapses = omega arith
step-left (running proceeding state none) elapses = omega arith
step-left (running completed state none) elapses = omega arith
step-left (running trying state (some (time, content))) elapses = omega arith
step-left (running proceeding state (some (time, content))) elapses = omega arith
step-left (running completed state (some (time, content))) elapses = omega arith
step-left (stopped reason state) input = omega arith
step-left crashed input = omega arith

left-le-one : (p : Process State ClientState) → left p ≤ 1
left-le-one (running trying state pending) = omega arith
left-le-one (running proceeding state pending) = omega arith
left-le-one (running completed state pending) = omega arith
left-le-one (stopped reason state) = omega arith
left-le-one crashed = omega arith

-- Whatever reaches it, in whatever order, a client transaction of a request that is no INVITE
-- passes at most one outcome to the core, a final response or an error, until it ends, with an
-- exception or without one.
pub run-outcomes :
    (state : ClientState) (inputs : List Input)
    → outcomes (run enter handle (start enter handle trying state).1 inputs).0 ≤ 1
run-outcomes state inputs =
    let p = (start enter handle trying state).1 in
    omega (arith, outcomes-run enter handle left step-left p inputs, left-le-one p)
