-- ===== src/Transaction/Runs/Outcomes.antt =====
-- lib/sippet/transactions: what the core learns from the steps of a transaction, and what a run keeps.
use elixir_sippet.Base.{
  ℕ, ◌+◌, ◌≤◌, List, [], ◌∷◌, ◌++◌, All, All-append, ◌≡◌, arith, ◌==◌, if◌then◌else◌,
}
use elixir_sippet.Transaction.Message.{status_code_class}
use elixir_sippet.Transaction.{
  Effect, send_request, send_response, receive_request, receive_response, receive_error, Event,
  Callback, Process, Input, step, run,
}

-- A final response or an error counts for one, a provisional response for nothing.
abbrev pub outcome : Effect → ℕ
outcome (receive_response response) = if status_code_class response == 1 then 0 else 1
outcome (receive_error reason) = 1
outcome (receive_request request) = 0
outcome (send_request request) = 0
outcome (send_response response) = 0

abbrev pub outcomes : List Effect → ℕ
outcomes [] = 0
outcomes (e ∷ effects) = outcome e + outcomes effects

pub outcomes-append : (xs ys : List Effect) → outcomes (xs ++ ys) ≡ outcomes xs + outcomes ys
outcomes-append [] ys = omega arith
outcomes-append (x ∷ xs) ys = omega (arith, outcomes-append xs ys)

module _ {S D : Type 0} (enter : S → D → List Effect × Callback S D)
    (handle : S → Event → D → List Effect × Callback S D) where
  -- What every step spends is spent by the run.
  pub outcomes-run :
      (budget : Process S D → ℕ)
      → ((p : Process S D) (input : Input)
          → outcomes (step enter handle p input).0 + budget (step enter handle p input).1
            ≤ budget p)
      → (p : Process S D) (inputs : List Input)
      → outcomes (run enter handle p inputs).0 + budget (run enter handle p inputs).1 ≤ budget p
  unfolding run
  outcomes-run budget spends p [] = omega arith
  outcomes-run budget spends p (input ∷ inputs) =
      let (effects, p') = step enter handle p input in
      omega (
        arith,
        outcomes-append effects (run enter handle p' inputs).0,
        spends p input,
        outcomes-run budget spends p' inputs,
      )

  -- What every step keeps, and makes true of its effects, holds of the run.
  pub run-keeps :
      (Holds : Process S D → Type 0) (Fits : Effect → Type 0)
      → ((p : Process S D) (input : Input)
          → Holds p
          → Holds (step enter handle p input).1 × All Fits (step enter handle p input).0)
      → (p : Process S D) (inputs : List Input) → Holds p
      → Holds (run enter handle p inputs).1 × All Fits (run enter handle p inputs).0
  unfolding run
  run-keeps Holds Fits keeps p [] h = (h, tt)
  run-keeps Holds Fits keeps p (input ∷ inputs) h =
      let (effects, p') = step enter handle p input in
      let (h', fits) = keeps p input h in
      let (last, later) = run-keeps Holds Fits keeps p' inputs h' in
      (last, All-append Fits effects (run enter handle p' inputs).0 fits later)
