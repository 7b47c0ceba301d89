-- ===== src/Transaction/Runs.antt =====
-- lib/sippet/transactions: a transaction that nothing reaches, so that only its state timeouts end. One
-- that sends again after each delay comes to its timeout.
pub mod Outcomes
pub mod Supervised
use elixir_sippet.Base.{
  ℕ, zero, suc, ◌+◌, ◌≤◌, ◌<◌, List, [], ◌∷◌, ◌++◌, append_assoc, append-nil, some, ◌≡◌, refl, ap,
  ◌∙◌, arith,
}
use native.Mathlib.Decide.{dec_le}
use elixir_sippet.Transaction.{
  Effect, waited, Event, state_timeout, Callback, keep_state_and_data, stop, shutdown, Process,
  running, stopped, elapses, step, wait,
}

-- `n` times the same effects.
abbrev pub repeat : ℕ → List Effect → List Effect
repeat zero effects = []
repeat (suc n) effects = effects ++ repeat n effects

module _ {S D : Type 0} (enter : S → D → List Effect × Callback S D)
    (handle : S → Event → D → List Effect × Callback S D) where
  -- The effects of `n` state timeouts, the process behind them, and the time that passed.
  abbrev pub silence : ℕ → Process S D → List Effect × Process S D × ℕ
  silence zero p = ([], p, 0)
  silence (suc n) p =
      let (effects, p') = step enter handle p elapses in
      let (later, last, time) = silence n p' in (effects ++ later, last, wait p + time)

  module _ (s : S) (d : D) (sent given_up : List Effect) (limit : ℕ) (longer : ℕ → ℕ)
      (Reached : ℕ → ℕ → Type 0)
      (retries : (w q : ℕ)
        → q < limit
        → handle s (state_timeout (waited w q)) d
          ≡ (sent, keep_state_and_data ((longer w, waited (longer w) (q + longer w)) ∷ [])))
      (gives_up : (w q : ℕ)
        → limit ≤ q
        → handle s (state_timeout (waited w q)) d ≡ (given_up, stop shutdown d))
      (positive : (w q : ℕ) → Reached w q → 0 < longer w)
      (kept : (w q : ℕ) → Reached w q → q < limit → Reached (longer w) (q + longer w)) where
    -- A wait of `w` up to the time `q` ends, behind `n` times sending, at a time `m` that is no less
    -- than the limit.
    abbrev pub GivesUp : ℕ → ℕ → Type 0
    GivesUp w q =
        (n m v : ℕ) × (limit ≤ m)
        × Reached v m
        × (time : ℕ) × (silence (suc n) (running s d (some (w, waited w q)))
            ≡ (repeat n sent ++ given_up, stopped shutdown d, time))
        × (time + q ≡ m + w)

    GivesUp-now : (w q : ℕ) → limit ≤ q → Reached w q → GivesUp w q
    unfolding step
    GivesUp-now w q over r =
        (0, q, w, over, r, w + 0, rw (gives_up w q over) (rw append-nil refl), omega arith)

    GivesUp-later : (w q : ℕ) → q < limit → GivesUp (longer w) (q + longer w) → GivesUp w q
    unfolding step
    GivesUp-later w q under (n, m, v, over, r, time, e, total) = (
      suc n,
      m,
      v,
      over,
      r,
      w + time,
      (rw (retries w q under) (
          ap (λ (rest : List Effect × Process S D × ℕ). (sent ++ rest.0, rest.1, w + rest.2)) e
          ∙ rw append_assoc refl)),
      omega arith,
    )

    -- From a wait that can be reached, with `k` no less than what is left up to the limit.
    pub silence-GivesUp : (k w q : ℕ) → limit ≤ q + k → Reached w q → GivesUp w q
    silence-GivesUp zero w q le r = GivesUp-now w q (omega arith) r
    silence-GivesUp (suc k) w q le r = elim (dec_le limit q) [
      | yes over ↦ GivesUp-now w q over r
      | no under ↦
          let less : q < limit = omega arith in
          GivesUp-later w q less (
            silence-GivesUp k (longer w) (q + longer w) (omega (arith, positive w q r))
              (kept w q r less))
    ]
