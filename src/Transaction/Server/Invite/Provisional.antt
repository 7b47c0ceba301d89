-- ===== src/Transaction/Server/Invite/Provisional.antt =====
-- lib/sippet/transactions/server/invite.ex: what answers a request that comes again in `proceeding`.
use elixir_sippet.Base.{ℕ, true, [], ◌∷◌, Option, none, some, ◌≡◌, refl, ap, ◌==◌}
use elixir_sippet.Transaction.Message.{Request, Response, status_code_class, trying_response}
use elixir_sippet.Transaction.Server.Invite.{State, proceeding, enter, handle, repeated, responded}
use elixir_sippet.Transaction.Server.Target.{responding-ensured, responding-again}
use elixir_sippet.Transaction.Server.{ServerState, ensure_response_target}
use elixir_sippet.Transaction.{
  send_response, incoming_request, outgoing_response, still_trying, keep_state_and_data, keep_state,
  Timeout, running, receives, elapses, step, run, handled,
}

module _ (state : ServerState) (r s : Response) where
  step-provisional :
      (pending : Option Timeout)
      → (status_code_class r == 1) ≡ true
      → ensure_response_target state.sippet r state.request ≡ some s
      → step enter handle (running proceeding state pending) (receives (outgoing_response r)) ≡ (
        send_response s ∷ [],
        running proceeding (record state { last_response = some s }) pending,
      )
  unfolding step handle responded
  step-provisional pending provisional ensured =
      rw (responding-ensured {S = State} (responded r) r s state ensured, provisional) refl

  step-still_trying :
      (time : ℕ)
      → ensure_response_target state.sippet (trying_response state.request) state.request ≡ some s
      → step enter handle (running proceeding state (some (time, still_trying))) elapses
        ≡ (send_response s ∷ [], running proceeding (record state { last_response = some s }) none)
  unfolding step handle
  step-still_trying time ensured = ap (handled enter handle proceeding state none) (
      responding-ensured {S = State} (λ sent. keep_state sent []) (trying_response state.request) s
        state ensured)

  step-repeated :
      (pending : Option Timeout) (request : Request)
      → ensure_response_target state.sippet r state.request ≡ some s
      → step enter handle
          (running proceeding (record state { last_response = some s }) pending)
          (receives (incoming_request request))
        ≡ (
          send_response s ∷ [],
          running proceeding (record state { last_response = some s }) pending,
        )
  unfolding step handle repeated
  step-repeated pending request ensured =
      let after = record state { last_response = some s } in
      ap (handled enter handle proceeding after pending)
        (responding-again {S = State} (λ sent. keep_state_and_data []) r s after ensured)

-- A request that comes again is answered by the provisional response that was sent last.
pub run-repeated :
    (state : ServerState) (pending : Option Timeout) (r s : Response) (request : Request)
    → (status_code_class r == 1) ≡ true
    → ensure_response_target state.sippet r state.request ≡ some s
    → (run enter handle
        (running proceeding state pending)
        (receives (outgoing_response r) ∷ receives (incoming_request request) ∷ [])).0
      ≡ send_response s ∷ send_response s ∷ []
unfolding run
run-repeated state pending r s request provisional ensured =
    rw
      (
        step-provisional state r s pending provisional ensured,
        step-repeated state r s pending request ensured,
      )
      refl

-- Where a provisional response is sent in `proceeding` before the state timeout ends, the 100 is
-- sent behind it, and a request that comes again then is answered by the 100, if the targets of
-- both can be found.
pub run-still_trying :
    (state : ServerState) (time : ℕ) (r s u : Response) (request : Request)
    → (status_code_class r == 1) ≡ true
    → ensure_response_target state.sippet r state.request ≡ some s
    → ensure_response_target state.sippet (trying_response state.request) state.request ≡ some u
    → (run enter handle
        (running proceeding state (some (time, still_trying)))
        (receives (outgoing_response r) ∷ elapses ∷ receives (incoming_request request) ∷ [])).0
      ≡ send_response s ∷ send_response u ∷ send_response u ∷ []
unfolding run
run-still_trying state time r s u request provisional first second =
    rw
      (
        step-provisional state r s (some (time, still_trying)) provisional first,
        step-still_trying (record state { last_response = some s }) r u time second,
        step-repeated state (trying_response state.request) u none request second,
      )
      refl
