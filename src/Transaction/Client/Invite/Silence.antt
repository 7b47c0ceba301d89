-- ===== src/Transaction/Client/Invite/Silence.antt =====
-- lib/sippet/transactions/client/invite.ex: an INVITE that nothing answers.
use elixir_sippet.Base.{
  ℕ, suc, ◌+◌, ◌*◌, ◌≤◌, ◌<◌, false, List, [], ◌∷◌, ◌++◌, none, some, ◌≡◌, ◌⊎◌, inl, refl, ap, ◌∙◌,
  arith,
}
use elixir_sippet.Transaction.Client.Invite.{
  State, calling, default_timer_a, default_timer_b, enter, handle,
}
use elixir_sippet.Transaction.Client.{ClientState, new_client}
use elixir_sippet.Transaction.Message.{Request, Sippet, reliable}
use elixir_sippet.Transaction.Runs.{repeat, silence, silence-GivesUp}
use elixir_sippet.Transaction.Timers.{Timers, timer, resolve, t1, timer_a, timer_b, resolve-invite}
use elixir_sippet.Transaction.{
  timeout, Effect, send_request, receive_error, waited, shutdown, Process, running, stopped, start,
  keep_state_and_data, state_timeout, stop,
}

-- A process that has just entered `calling`.
abbrev pub fresh : ClientState → Process State ClientState
fresh state = (start enter handle calling state).1

module _ (state : ClientState) (a b : ℕ) (is_a : timer state.timers timer_a default_timer_a ≡ a)
    (is_b : timer state.timers timer_b default_timer_b ≡ b) where
  retries :
      (w q : ℕ)
      → q < b
      → handle calling (state_timeout (waited w q)) state ≡ (
        send_request state.request ∷ [],
        keep_state_and_data ((w * 2, waited (w * 2) (q + w * 2)) ∷ []),
      )
  unfolding handle
  retries w q h = rw is_b (ground arith)

  gives_up :
      (w q : ℕ)
      → b ≤ q
      → handle calling (state_timeout (waited w q)) state
        ≡ (receive_error timeout ∷ [], stop shutdown state)
  unfolding handle
  gives_up w q h = rw is_b (ground arith)

  -- The waits double, so the last one is shorter than the time before it and the first wait.
  abbrev Doubled : ℕ → ℕ → Type 0
  Doubled w q = (0 < w) × (q + a ≡ w * 2) × (q < b * 2 + a)

  pub fresh-running :
      reliable state.sippet state.request ≡ some false
      → start enter handle calling state
        ≡ (send_request state.request ∷ [], running calling state (some (a, waited a a)))
  unfolding start enter
  fresh-running h = rw (h, is_a) refl

  -- An INVITE over an unreliable transport that nothing answers is sent again at the end of each
  -- wait, until the core gets a timeout and the transaction stops, at a time from timer B on and
  -- below twice timer B and timer A, if both are positive.
  pub silence-fresh :
      reliable state.sippet state.request ≡ some false
      → 0 < a
      → 0 < b
      → (n time : ℕ) × (silence enter handle (suc n) (fresh state) ≡ (
        repeat n (send_request state.request ∷ []) ++ receive_error timeout ∷ [],
        stopped shutdown state,
        time,
      ))
        × (b ≤ time)
        × (time < b * 2 + a)
  silence-fresh h pa pb =
      let (n, m, v, least, (p, d, most), time, e, total) =
        silence-GivesUp enter handle calling state (send_request state.request ∷ [])
          (receive_error timeout ∷ []) b (λ w. w * 2) Doubled retries gives_up
          (λ w q r. omega (arith, r)) (λ w q r less. omega (arith, r, less)) b a a (omega arith)
          (pa, omega arith, omega arith) in
      (
        n,
        time,
        ap (λ (p : List Effect × Process State ClientState). silence enter handle (suc n) p.1)
              (fresh-running h)
            ∙ e,
        omega arith,
        omega arith,
      )

  -- The waits that come up where timer B is 64 times timer A.
  abbrev Stage : ℕ → ℕ → Type 0
  Stage w q =
      (q + a ≡ w * 2)
      × ((w ≡ a)
          ⊎ (w ≡ a * 2)
          ⊎ (w ≡ a * 4)
          ⊎ (w ≡ a * 8)
          ⊎ (w ≡ a * 16)
          ⊎ (w ≡ a * 32)
          ⊎ (w ≡ a * 64))

  Stage-positive : (w q : ℕ) → 0 < a → Stage w q → 0 < w * 2
  Stage-positive w q pa (e, r) = ground arith

  Stage-doubled : (w q : ℕ) → b ≡ a * 64 → Stage w q → q < b → Stage (w * 2) (q + w * 2)
  Stage-doubled w q h (e, r) less = ground arith

  Stage-last : (w q : ℕ) → b ≡ a * 64 → 0 < a → Stage w q → b ≤ q → q ≡ a * 127
  Stage-last w q h pa (e, r) le = ground arith

  -- With timer B at 64 times timer A, as both follow from T1, the core gets the timeout at 127 times
  -- timer A, the time of timer B and 63 times timer A.
  pub silence-fresh_late :
      reliable state.sippet state.request ≡ some false
      → 0 < a
      → b ≡ a * 64
      → (n : ℕ) × (silence enter handle (suc n) (fresh state) ≡ (
        repeat n (send_request state.request ∷ []) ++ receive_error timeout ∷ [],
        stopped shutdown state,
        a * 127,
      ))
  silence-fresh_late h pa ratio =
      let (n, m, v, least, r, time, e, total) =
        silence-GivesUp enter handle calling state (send_request state.request ∷ [])
          (receive_error timeout ∷ []) b (λ w. w * 2) Stage retries gives_up
          (λ w q r. Stage-positive w q pa r) (λ w q r less. Stage-doubled w q ratio r less) b a a
          (omega arith) (omega arith, inl refl) in
      let at : time ≡ a * 127 = omega (arith, Stage-last v m ratio pa r least) in
      (
        n,
        ap (λ (p : List Effect × Process State ClientState). silence enter handle (suc n) p.1)
              (fresh-running h)
            ∙ e
            ∙ ap
                (λ (t : ℕ). (
                  repeat n (send_request state.request ∷ []) ++ receive_error timeout ∷ [],
                  stopped shutdown state,
                  t,
                ))
                at,
      )

-- In a Sippet instance whose timers A and B follow from a positive T1, an INVITE over an unreliable
-- transport that nothing answers is sent again at the end of each wait, and the core gets the
-- timeout at 127 times T1.
pub silence-resolved :
    (request : Request) (sippet : Sippet) (overrides : Timers)
    → overrides timer_a ≡ none
    → overrides timer_b ≡ none
    → 0 < timer overrides t1 500
    → reliable sippet request ≡ some false
    → let state = new_client request sippet (resolve overrides) in
      (n : ℕ) × (silence enter handle (suc n) (fresh state) ≡ (
        repeat n (send_request request ∷ []) ++ receive_error timeout ∷ [],
        stopped shutdown state,
        timer overrides t1 500 * 127,
      ))
unfolding new_client
silence-resolved request sippet overrides no_a no_b positive unreliable =
    let state = new_client request sippet (resolve overrides) in
    let (is_a, is_b) = resolve-invite overrides no_a no_b in
    silence-fresh_late state (timer overrides t1 500) (timer overrides t1 500 * 64) is_a is_b
      unreliable positive refl
