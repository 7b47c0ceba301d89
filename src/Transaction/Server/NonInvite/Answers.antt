-- ===== src/Transaction/Server/NonInvite/Answers.antt =====
-- lib/sippet/transactions/server/non_invite.ex: what answers a request that comes again.
use elixir_sippet.Base.{
  Bool, true, false, List, [], ◌∷◌, ◌++◌, Option, none, some, All, All-append, ◌≡◌, ◌⊎◌, refl, sym,
  subst, arith, ◌==◌,
}
use elixir_sippet.Transaction.Message.{Request, Response, reliable, status_code_class}
use elixir_sippet.Transaction.Runs.Supervised.{revived-Holds, supervised_run-keeps}
use elixir_sippet.Transaction.Server.NonInvite.{
  State, trying, proceeding, completed, enter, handle, repeated, responded, completed_actions,
}
use elixir_sippet.Transaction.Server.Target.{responding-ensured, responding-again}
use elixir_sippet.Transaction.Server.{ServerState, ensure_response_target}
use elixir_sippet.Transaction.{
  Effect, send_response, incoming_request, outgoing_response, error, keep_state_and_data,
  keep_state, next_state, Timeout, Process, running, stopped, crashed, Input, receives, elapses,
  start, step, supervised_run, entered, handled, joined,
}

module _ (r s : Response) (is_reliable : Bool) where
  -- The process holds the answer, or is done.
  abbrev Holds : Process State ServerState → Type 0
  Holds (running trying state pending) = ⊥
  Holds (running proceeding state pending) = ⊥
  Holds (running completed state pending) =
      (state.last_response ≡ some s)
      × (ensure_response_target state.sippet r state.request ≡ some s)
  Holds (stopped reason state) = Unit
  Holds crashed = ⊥

  abbrev Keeps : List Effect × Process State ServerState → Type 0
  Keeps (effects, p) = Holds p × All (λ e. e ≡ send_response s) effects

  repeated-Keeps :
      (state : ServerState) (pending : Option Timeout) (request : Request)
      → Holds (running completed state pending)
      → Keeps (handled enter handle completed state pending (repeated (some s) request state))
  unfolding repeated
  repeated-Keeps state pending request (last, ensured) =
      rw (responding-again {S = State} (λ sent. keep_state_and_data []) r s state ensured)
        ((last, ensured), (refl, tt))

  step-Keeps :
      (p : Process State ServerState) (input : Input) → Holds p → Keeps (step enter handle p input)
  unfolding step handle
  step-Keeps (running trying state pending) input h = elim h [ ]
  step-Keeps (running proceeding state pending) input h = elim h [ ]
  step-Keeps (running completed state pending) (receives (incoming_request request)) (last, e) =
      subst (λ o. Keeps (handled enter handle completed state pending (repeated o request state)))
        (sym last) (repeated-Keeps state pending request (last, e))
  step-Keeps (running completed state pending) (receives (error reason)) h = (h, tt)
  step-Keeps (running completed state pending) (receives _) h = (tt, tt)
  step-Keeps (running completed state none) elapses h = (h, tt)
  step-Keeps (running completed state (some (time, content))) elapses h = (tt, tt)
  step-Keeps (stopped reason state) input h = (tt, tt)
  step-Keeps crashed input h = absurd h

  completed_actions-Keeps :
      (b : Bool) (entry state : ServerState)
      → Holds (running completed entry none)
      → Keeps (entered enter handle completed entry ([], completed_actions (some b) state))
  unfolding completed_actions
  completed_actions-Keeps true entry state h = (tt, tt)
  completed_actions-Keeps false entry state h = (h, tt)

  completed-Keeps :
      (state : ServerState)
      → reliable state.sippet state.request ≡ some is_reliable
      → Holds (running completed state none)
      → Keeps (start enter handle completed state)
  unfolding start enter
  completed-Keeps state known h =
      subst (λ o. Keeps (entered enter handle completed state ([], completed_actions o state)))
        (sym known) (completed_actions-Keeps is_reliable state state h)

  step-final :
      (at : State) (state : ServerState) (pending : Option Timeout)
      → (at ≡ trying) ⊎ (at ≡ proceeding)
      → (status_code_class r == 1) ≡ false
      → ensure_response_target state.sippet r state.request ≡ some s
      → step enter handle (running at state pending) (receives (outgoing_response r))
        ≡ joined enter handle
            (send_response s ∷ [])
            (start enter handle completed (record state { last_response = some s }))
  unfolding step handle responded
  step-final trying state pending here final ensured =
      rw
        (
          responding-ensured {S = State} (responded (next_state proceeding) r) r s state ensured,
          final,
        )
        refl
  step-final proceeding state pending here final ensured =
      rw
        (
          responding-ensured {S = State} (responded (λ sent. keep_state sent []) r) r s state
              ensured,
          final,
        )
        refl
  step-final completed state pending here final ensured = ground arith

  -- A response that is not provisional is sent, in `trying` and in `proceeding` of a request that
  -- is no INVITE, if its target can be found and `reliable?` knows the transport of the topmost
  -- Via. Behind that, whatever arrives, and whatever the supervisor makes of a process that an
  -- exception ended, nothing is sent but the same response, and the core gets nothing.
  pub run-answers :
      (restarted : List Effect × Process State ServerState) (at : State) (state : ServerState)
      (pending : Option Timeout) (inputs : List Input)
      → (at ≡ trying) ⊎ (at ≡ proceeding)
      → (status_code_class r == 1) ≡ false
      → ensure_response_target state.sippet r state.request ≡ some s
      → reliable state.sippet state.request ≡ some is_reliable
      → (rest : List Effect) × ((supervised_run enter handle restarted
            (running at state pending)
            (receives (outgoing_response r) ∷ inputs)).0
          ≡ send_response s ∷ rest)
        × All (λ e. e ≡ send_response s) rest
  unfolding supervised_run
  run-answers restarted at state pending inputs here final ensured known =
      let after = start enter handle completed (record state { last_response = some s }) in
      let (holds, sent) =
        completed-Keeps (record state { last_response = some s }) known (refl, ensured) in
      let (last, later) =
        supervised_run-keeps enter handle Holds (λ h. h) restarted (λ e. e ≡ send_response s)
          step-Keeps after.1 inputs holds in
      let alive =
        revived-Holds enter handle Holds (λ h. h) restarted (send_response s ∷ after.0) after.1
          holds in
      (
        after.0 ++ (supervised_run enter handle restarted after.1 inputs).0,
        rw (step-final at state pending here final ensured, alive) refl,
        All-append (λ e. e ≡ send_response s) after.0
            (supervised_run enter handle restarted after.1 inputs).0 sent later,
      )
