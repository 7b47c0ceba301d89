-- ===== src/Transaction/Runs/Supervised.antt =====
-- lib/sippet/transactions: what a run keeps under a supervisor, if no exception is raised in it.
use elixir_sippet.Base.{List, [], ◌∷◌, All, All-append, ◌≡◌, refl}
use elixir_sippet.Transaction.{
  Effect, Event, Callback, Process, running, stopped, crashed, Input, step, revived, supervised_run,
}

module _ {S D : Type 0} (enter : S → D → List Effect × Callback S D)
    (handle : S → Event → D → List Effect × Callback S D) (Holds : Process S D → Type 0)
    (alive : Holds crashed → ⊥) where
  pub revived-Holds :
      (restarted : List Effect × Process S D) (effects : List Effect) (p : Process S D)
      → Holds p
      → revived enter handle restarted (effects, p) ≡ (effects, p)
  revived-Holds restarted effects (running s d pending) h = refl
  revived-Holds restarted effects (stopped reason d) h = refl
  revived-Holds restarted effects crashed h = absurd (alive h)

  -- What every step keeps, and makes true of its effects, holds of the run.
  pub supervised_run-keeps :
      (restarted : List Effect × Process S D) (Fits : Effect → Type 0)
      → ((p : Process S D) (input : Input)
          → Holds p
          → Holds (step enter handle p input).1 × All Fits (step enter handle p input).0)
      → (p : Process S D) (inputs : List Input) → Holds p
      → Holds (supervised_run enter handle restarted p inputs).1
        × All Fits (supervised_run enter handle restarted p inputs).0
  unfolding supervised_run
  supervised_run-keeps restarted Fits keeps p [] h = (h, tt)
  supervised_run-keeps restarted Fits keeps p (input ∷ inputs) h =
      let (effects, p') = step enter handle p input in
      let (h', fits) = keeps p input h in
      let (last, later) = supervised_run-keeps restarted Fits keeps p' inputs h' in
      rw (revived-Holds restarted effects p' h') (
        last,
        All-append Fits effects (supervised_run enter handle restarted p' inputs).0 fits later,
      )
