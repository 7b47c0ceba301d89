-- ===== src/Transaction/Server/Invite/Answers.antt =====
-- lib/sippet/transactions/server/invite.ex: what answers a request that comes again.
use elixir_sippet.Base.{
  ℕ, Bool, true, false, Bool-cases, All-append, ◌+◌, ◌*◌, leb, List, [], ◌∷◌, ◌++◌, Option, none,
  some, All, ◌≡◌, ◌⊎◌, inl, inr, refl, sym, subst, ◌==◌,
}
use elixir_sippet.Transaction.Message.{Request, Response, reliable, status_code_class, ack_name}
use elixir_sippet.Transaction.Runs.Supervised.{revived-Holds, supervised_run-keeps}
use elixir_sippet.Transaction.Server.Invite.{
  State, proceeding, completed, confirmed, enter, handle, invite_name, completed_request,
  completed_timeout, retry, responded, confirmed_actions, completed_actions, default_timer_h,
  default_t2, min,
}
use elixir_sippet.Transaction.Server.Target.{responding-ensured, responding-again}
use elixir_sippet.Transaction.Server.{ServerState, ensure_response_target, responding}
use elixir_sippet.Transaction.Timers.{timer, timer_h, t2}
use elixir_sippet.Transaction.{
  invalid_method, timeout, Reason, Effect, send_response, receive_error, incoming_request,
  outgoing_response, error, Content, waited, still_trying, nil, keep_state_and_data, Timeout,
  Process, running, stopped, crashed, Input, receives, elapses, start, step, supervised_run,
  entered, handled, latest, joined,
}
use elixir_sippet.Value.{same_name}

module _ (r s : Response) (is_reliable : Bool) where
  -- An answer that was sent before, or an error for the core.
  abbrev pub Settled : Effect → Type 0
  Settled e = (e ≡ send_response s) ⊎ ((reason : Reason) × (e ≡ receive_error reason))

  -- The timeouts of `completed`
  abbrev Waits : Option Timeout → Type 0
  Waits none = Unit
  Waits (some (time, waited w q)) = Unit
  Waits (some (time, still_trying)) = ⊥
  Waits (some (time, nil)) = ⊥

  -- What the data of `completed` hold: the answer, a request whose Via names a transport that is known.
  abbrev Answered : ServerState → Type 0
  Answered state =
      (state.last_response ≡ some s)
      × (ensure_response_target state.sippet r state.request ≡ some s)
      × (reliable state.sippet state.request ≡ some is_reliable)

  -- The process holds the answer, or needs none; no exception was raised.
  abbrev Holds : Process State ServerState → Type 0
  Holds (running proceeding state pending) = ⊥
  Holds (running completed state pending) = Answered state × Waits pending
  Holds (running confirmed state pending) = Unit
  Holds (stopped reason state) = Unit
  Holds crashed = ⊥

  abbrev Keeps : List Effect × Process State ServerState → Type 0
  Keeps (effects, p) = Holds p × All Settled effects

  confirmed_actions-Keeps :
      (b : Bool) (entry state : ServerState)
      → Keeps (entered enter handle confirmed entry ([], confirmed_actions (some b) state))
  unfolding confirmed_actions
  confirmed_actions-Keeps true entry state = (tt, tt)
  confirmed_actions-Keeps false entry state = (tt, tt)

  confirmed-Keeps :
      (state : ServerState)
      → reliable state.sippet state.request ≡ some is_reliable
      → Keeps (start enter handle confirmed state)
  unfolding start enter
  confirmed-Keeps state known =
      subst (λ o. Keeps (entered enter handle confirmed state ([], confirmed_actions o state)))
        (sym known) (confirmed_actions-Keeps is_reliable state state)

  module _ (state : ServerState) (last : state.last_response ≡ some s)
      (ensured : ensure_response_target state.sippet r state.request ≡ some s)
      (known : reliable state.sippet state.request ≡ some is_reliable) where
    -- The answer is sent again, and the data are as they were.
    answered :
        (pending : Option Timeout) (actions : List Timeout)
        → Waits (latest pending actions)
        → Keeps (
            handled enter handle completed state pending
              (responding (λ sent. keep_state_and_data actions) s state))
    answered pending actions waits =
        rw (responding-again (λ sent. keep_state_and_data actions) r s state ensured)
          (((last, ensured, known), waits), (inl refl, tt))

    request-Keeps :
        (pending : Option Timeout) (request : Request)
        → Waits pending
        → Keeps (
            handled enter handle completed state pending (completed_request (some s) request state))
    unfolding completed_request
    request-Keeps pending request waits = elim (Bool-cases (same_name request.method invite_name)) [
      | inl invite ↦ rw invite (answered pending [] waits)
      | inr not_invite ↦ elim (Bool-cases (same_name request.method ack_name)) [
        | inl ack ↦ rw (not_invite, ack) (confirmed-Keeps state known)
        | inr neither ↦ rw (not_invite, neither) (tt, (inr (invalid_method, refl), tt))
      ]
    ]

    timeout-Keeps :
        (time : ℕ) (content : Content)
        → Waits (some (time, content))
        → Keeps (handled enter handle completed state none (completed_timeout content state))
    unfolding completed_timeout
    timeout-Keeps time (waited w q) waits =
        let limit = timer state.timers timer_h default_timer_h in
        let cap = timer state.timers t2 default_t2 in
        let delay = min (w * 2) cap in
        elim (Bool-cases (leb limit q)) [
          | inl over ↦ rw over (tt, (inr (timeout, refl), tt))
          | inr under ↦ rw under (
              subst (λ o. Keeps (handled enter handle completed state none (retry o w q state)))
                (sym last)
                (unfold retry in answered none ((delay, waited delay (q + delay)) ∷ []) tt))
        ]
    timeout-Keeps time still_trying waits = absurd waits
    timeout-Keeps time nil waits = absurd waits

  step-Keeps :
      (p : Process State ServerState) (input : Input) → Holds p → Keeps (step enter handle p input)
  unfolding step handle
  step-Keeps (running proceeding state pending) input h = elim h [ ]
  step-Keeps (running completed state pending) (receives (incoming_request request))
        ((last, e, known), waits) =
      subst
        (λ o.
          Keeps (handled enter handle completed state pending (completed_request o request state)))
        (sym last) (request-Keeps state last e known pending request waits)
  step-Keeps (running completed state pending) (receives (error reason)) h =
      (tt, (inr (reason, refl), tt))
  step-Keeps (running completed state pending) (receives _) h = (tt, tt)
  step-Keeps (running completed state none) elapses h = (h, tt)
  step-Keeps (running completed state (some (time, content))) elapses ((last, e, known), waits) =
      timeout-Keeps state last e known time content waits
  step-Keeps (running confirmed state pending) (receives (incoming_request request)) h = (tt, tt)
  step-Keeps (running confirmed state pending) (receives (error reason)) h = (tt, tt)
  step-Keeps (running confirmed state pending) (receives _) h = (tt, tt)
  step-Keeps (running confirmed state none) elapses h = (tt, tt)
  step-Keeps (running confirmed state (some (time, content))) elapses h = (tt, tt)
  step-Keeps (stopped reason state) input h = (tt, tt)
  step-Keeps crashed input h = absurd h

  completed_actions-Keeps :
      (b : Bool) (entry state : ServerState)
      → Answered entry
      → Keeps (entered enter handle completed entry ([], completed_actions (some b) state))
  unfolding completed_actions
  completed_actions-Keeps true entry state h = ((h, tt), tt)
  completed_actions-Keeps false entry state h = ((h, tt), tt)

  completed-Keeps :
      (state : ServerState) → Answered state → Keeps (start enter handle completed state)
  unfolding start enter
  completed-Keeps state (last, ensured, known) =
      subst (λ o. Keeps (entered enter handle completed state ([], completed_actions o state)))
        (sym known) (completed_actions-Keeps is_reliable state state (last, ensured, known))

  step-final :
      (state : ServerState) (pending : Option Timeout)
      → (status_code_class r == 1) ≡ false
      → (status_code_class r == 2) ≡ false
      → ensure_response_target state.sippet r state.request ≡ some s
      → step enter handle (running proceeding state pending) (receives (outgoing_response r))
        ≡ joined enter handle
            (send_response s ∷ [])
            (start enter handle completed (record state { last_response = some s }))
  unfolding step handle responded
  step-final state pending no_one no_two ensured =
      rw (responding-ensured (responded r) r s state ensured, no_one, no_two) refl

  -- A final response that is no success is sent, in `proceeding`, if its target can be found and
  -- `reliable?` knows the transport of the topmost Via. Behind that, whatever arrives, and whatever
  -- the supervisor makes of a process that an exception ended, nothing is sent but the same
  -- response, and the core gets nothing but errors.
  pub run-Settled :
      (restarted : List Effect × Process State ServerState) (state : ServerState)
      (pending : Option Timeout) (inputs : List Input)
      → (status_code_class r == 1) ≡ false
      → (status_code_class r == 2) ≡ false
      → ensure_response_target state.sippet r state.request ≡ some s
      → reliable state.sippet state.request ≡ some is_reliable
      → (rest : List Effect) × ((supervised_run enter handle restarted
            (running proceeding state pending)
            (receives (outgoing_response r) ∷ inputs)).0
          ≡ send_response s ∷ rest)
        × All Settled rest
  unfolding supervised_run
  run-Settled restarted state pending inputs no_one no_two ensured known =
      let after = start enter handle completed (record state { last_response = some s }) in
      let (holds, sent) =
        completed-Keeps (record state { last_response = some s }) (refl, ensured, known) in
      let (last, later) =
        supervised_run-keeps enter handle Holds (λ h. h) restarted Settled step-Keeps after.1 inputs
          holds in
      let alive =
        revived-Holds enter handle Holds (λ h. h) restarted (send_response s ∷ after.0) after.1
          holds in
      (
        after.0 ++ (supervised_run enter handle restarted after.1 inputs).0,
        rw (step-final state pending no_one no_two ensured, alive) refl,
        All-append Settled after.0 (supervised_run enter handle restarted after.1 inputs).0 sent
            later,
      )
