-- ===== src/Transaction/Client/Invite/Resend.antt =====
-- lib/sippet/transactions/client/invite.ex: what is sent behind a final response that is no success.
use elixir_sippet.Base.{
  Bool, true, false, Bool-cases, leb, List, [], ◌∷◌, ◌++◌, Option, none, some, All, ◌≡◌, ◌⊎◌, inl,
  inr, refl, ap, sym, subst, sym, subst, arith, ◌==◌,
}
use elixir_sippet.Transaction.Client.Invite.{
  State, calling, proceeding, completed, enter, handle, build_ack, completed_actions, acknowledge,
  last_ack, again, final_or,
}
use elixir_sippet.Transaction.Client.{ClientState, unhandled_event}
use elixir_sippet.Transaction.Message.{Request, Response, reliable, status_code_class}
use elixir_sippet.Transaction.Runs.Outcomes.{run-keeps}
use elixir_sippet.Transaction.{
  Effect, send_request, receive_response, incoming_response, error, Timeout, Process, running,
  stopped, crashed, Input, receives, elapses, start, step, run, entered, handled, joined,
}

module _ (ack : Request) where
  -- A process that is done, or holds the ACK.
  abbrev Holds : Process State ClientState → Type 0
  Holds (running calling state pending) = ⊥
  Holds (running proceeding state pending) = ⊥
  Holds (running completed state pending) = state.ack ≡ some ack
  Holds (stopped reason state) = Unit
  Holds crashed = Unit

  abbrev Keeps : List Effect × Process State ClientState → Type 0
  Keeps (effects, p) = Holds p × All (λ e. e ≡ send_request ack) effects

  completed_actions-Keeps :
      (is_reliable : Option Bool) (entry state : ClientState)
      → state.ack ≡ some ack
      → Keeps (
          entered enter handle completed entry
            (send_request ack ∷ [], completed_actions is_reliable state))
  unfolding completed_actions
  completed_actions-Keeps none entry state h = (tt, (refl, tt))
  completed_actions-Keeps (some true) entry state h = (tt, (refl, tt))
  completed_actions-Keeps (some false) entry state h = (h, (refl, tt))

  completed-Keeps :
      (state : ClientState) (r : Response)
      → build_ack state.request r ≡ some ack
      → Keeps (start enter handle completed (record state { last_response = some r }))
  unfolding start enter last_ack acknowledge
  completed-Keeps state r h = rw h (
      completed_actions-Keeps (reliable state.sippet state.request)
        (record state { last_response = some r })
        (record state { last_response = some r; ack = some ack }) refl)

  completed_actions-sends :
      (is_reliable : Option Bool) (entry state : ClientState)
      → (entered enter handle completed entry
          (send_request ack ∷ [], completed_actions is_reliable state)).0
        ≡ send_request ack ∷ []
  unfolding completed_actions
  completed_actions-sends none entry state = refl
  completed_actions-sends (some true) entry state = refl
  completed_actions-sends (some false) entry state = refl

  completed-sends :
      (state : ClientState) (r : Response)
      → build_ack state.request r ≡ some ack
      → (start enter handle completed (record state { last_response = some r })).0
        ≡ send_request ack ∷ []
  unfolding start enter last_ack acknowledge
  completed-sends state r h = rw h (
      completed_actions-sends (reliable state.sippet state.request)
        (record state { last_response = some r })
        (record state { last_response = some r; ack = some ack }))

  again-Keeps :
      (state : ClientState) (r : Response) (pending : Option Timeout)
      → state.ack ≡ some ack
      → Keeps (handled enter handle completed state pending (again (some ack) r state))
  unfolding again
  again-Keeps state r pending h = elim (Bool-cases (leb 3 (status_code_class r))) [
    | inl failure ↦ rw failure (h, (refl, tt))
    | inr other ↦ rw other (h, tt)
  ]

  step-Keeps :
      (p : Process State ClientState) (input : Input) → Holds p → Keeps (step enter handle p input)
  unfolding step handle unhandled_event
  step-Keeps (running calling state pending) input h = elim h [ ]
  step-Keeps (running proceeding state pending) input h = elim h [ ]
  step-Keeps (running completed state pending) (receives (incoming_response r)) h =
      subst (λ o. Keeps (handled enter handle completed state pending (again o r state))) (sym h)
        (again-Keeps state r pending h)
  step-Keeps (running completed state pending) (receives (error reason)) h = (h, tt)
  step-Keeps (running completed state pending) (receives _) h = (tt, tt)
  step-Keeps (running completed state none) elapses h = (h, tt)
  step-Keeps (running completed state (some (time, content))) elapses h = (tt, tt)
  step-Keeps (stopped reason state) input h = (tt, tt)
  step-Keeps crashed input h = (tt, tt)

  -- What a run sends behind entering `completed`.
  run-completed :
      (state : ClientState) (r : Response) (inputs : List Input)
      → build_ack state.request r ≡ some ack
      → let p = (start enter handle completed (record state { last_response = some r })).1 in
        All (λ e. e ≡ send_request ack) (run enter handle p inputs).0
  run-completed state r inputs h =
      let p = (start enter handle completed (record state { last_response = some r })).1 in
      let (holds, sent) = completed-Keeps state r h in
      let (last, later) =
        run-keeps enter handle Holds (λ e. e ≡ send_request ack) step-Keeps p inputs holds in
      later

step-final :
    (s : State) (state : ClientState) (pending : Option Timeout) (r : Response)
    → (s ≡ calling) ⊎ (s ≡ proceeding)
    → (status_code_class r == 1) ≡ false
    → (status_code_class r == 2) ≡ false
    → step enter handle (running s state pending) (receives (incoming_response r))
      ≡ joined enter handle
          (receive_response r ∷ [])
          (start enter handle completed (record state { last_response = some r }))
unfolding step handle final_or
step-final calling state pending r at no_one no_two = rw (no_one, no_two) refl
step-final proceeding state pending r at no_one no_two = rw (no_one, no_two) refl
step-final completed state pending r at no_one no_two = ground arith

-- A final response that is no success is passed on, in `calling` and in `proceeding`, and the ACK
-- for it is sent, if it can be built. Behind that, whatever else arrives, nothing is passed on and
-- nothing is sent but the same ACK, until the transaction ends, with an exception or without one.
pub run-final :
    (s : State) (state : ClientState) (pending : Option Timeout) (r : Response) (ack : Request)
    (inputs : List Input)
    → (s ≡ calling) ⊎ (s ≡ proceeding)
    → (status_code_class r == 1) ≡ false
    → (status_code_class r == 2) ≡ false
    → build_ack state.request r ≡ some ack
    → (rest : List Effect) × ((run enter handle
          (running s state pending)
          (receives (incoming_response r) ∷ inputs)).0
        ≡ receive_response r ∷ send_request ack ∷ rest)
      × All (λ e. e ≡ send_request ack) rest
unfolding run
run-final s state pending r ack inputs at no_one no_two h =
    let p = (start enter handle completed (record state { last_response = some r })).1 in
    (
      (run enter handle p inputs).0,
      rw (step-final s state pending r at no_one no_two) (
          ap
            (λ (effects : List Effect).
              receive_response r ∷ effects ++ (run enter handle p inputs).0)
            (completed-sends ack state r h)),
      run-completed ack state r inputs h,
    )
