-- ===== src/Transaction/Server/Invite/Silence.antt =====
-- lib/sippet/transactions/server/invite.ex: a final response that no ACK answers.
use elixir_sippet.Base.{
  ℕ, suc, ◌+◌, ◌*◌, ◌≤◌, ◌<◌, leb, false, List, [], ◌∷◌, ◌++◌, some, ◌≡◌, refl, ap, ◌∙◌, arith,
}
use elixir_sippet.Transaction.Message.{Response, reliable}
use elixir_sippet.Transaction.Runs.{repeat, silence, silence-GivesUp}
use elixir_sippet.Transaction.Server.Invite.{
  State, completed, default_t2, default_timer_g, default_timer_h, min, enter, handle,
}
use elixir_sippet.Transaction.Server.Target.{responding-again}
use elixir_sippet.Transaction.Server.{ServerState, ensure_response_target}
use elixir_sippet.Transaction.Timers.{timer, t2, timer_g, timer_h}
use elixir_sippet.Transaction.{
  timeout, Effect, send_response, receive_error, waited, shutdown, Process, running, stopped, start,
  keep_state_and_data, state_timeout, stop,
}

module _ (state : ServerState) (r s : Response) (g h t : ℕ)
    (is_g : timer state.timers timer_g default_timer_g ≡ g)
    (is_h : timer state.timers timer_h default_timer_h ≡ h)
    (is_t : timer state.timers t2 default_t2 ≡ t)
    (ensured : ensure_response_target state.sippet r state.request ≡ some s) where
  -- The data behind sending the response.
  abbrev sent : ServerState
  sent = record state { last_response = some s }

  retries :
      (w q : ℕ)
      → q < h
      → handle completed (state_timeout (waited w q)) sent ≡ (
        send_response s ∷ [],
        keep_state_and_data ((min (w * 2) t, waited (min (w * 2) t) (q + min (w * 2) t)) ∷ []),
      )
  unfolding handle
  retries w q less =
      let early : leb h q ≡ false = ground arith in
      let delay = min (w * 2) t in
      rw (is_h, early, is_t)
        (responding-again (λ again. keep_state_and_data ((delay, waited delay (q + delay)) ∷ [])) r
          s sent ensured)

  gives_up :
      (w q : ℕ)
      → h ≤ q
      → handle completed (state_timeout (waited w q)) sent
        ≡ (receive_error timeout ∷ [], stop shutdown sent)
  unfolding handle
  gives_up w q over = rw is_h (ground arith)

  abbrev Capped : ℕ → ℕ → Type 0
  Capped w q = (0 < w) × (q < h + t)

  completed-running :
      reliable state.sippet state.request ≡ some false
      → start enter handle completed sent ≡ ([], running completed sent (some (g, waited g g)))
  unfolding start enter
  completed-running unreliable = rw (unreliable, is_g) refl

  -- Over an unreliable transport, a final response to an INVITE that no ACK answers is sent again
  -- at the end of each wait, until the core gets a timeout and the transaction stops, at a time
  -- from timer H on and below timer H and T2, if timer G is positive and no more than timer H, and
  -- T2 is positive.
  pub silence-completed :
      reliable state.sippet state.request ≡ some false
      → 0 < g
      → g ≤ h
      → 0 < t
      → (n time : ℕ) × (silence enter handle (suc n) (start enter handle completed sent).1 ≡ (
        repeat n (send_response s ∷ []) ++ receive_error timeout ∷ [],
        stopped shutdown sent,
        time,
      ))
        × (h ≤ time)
        × (time < h + t)
  silence-completed unreliable pg le pt =
      let (n, m, v, least, (p, most), time, e, total) =
        silence-GivesUp enter handle completed sent (send_response s ∷ [])
          (receive_error timeout ∷ []) h (λ w. min (w * 2) t) Capped retries gives_up
          (λ w q c. ground (arith, c)) (λ w q c less. ground (arith, c, less)) h g g (omega arith)
          (pg, omega arith) in
      (
        n,
        time,
        ap (λ (p : List Effect × Process State ServerState). silence enter handle (suc n) p.1)
              (completed-running unreliable)
            ∙ e,
        omega arith,
        omega arith,
      )
