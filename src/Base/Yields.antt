-- ===== src/Base/Yields.antt =====
-- What an iterator yields: the values of its `GetNext` calls up to the one that returns false. The
-- loops of Base.Loop run over exactly these values, given a round more than the text is long.
use Prim.Native.Nat.{ℕ, zero, suc, ◌≤◌, ◌<◌}
use mathlib.Core.List.{List, [], ◌∷◌}
use mathlib.Core.Logic.{inl, inr}
use mathlib.Core.Option.{Option, none, some}
use mathlib.Core.Path.{◌≡◌, ◌∙◌}
use native.Mathlib.Omega.{arith}
use elixir_sippet.Base.Lists.{Bytes, length}
use elixir_sippet.Base.Loop.{Next, find_next, while_next, rounds}
use elixir_sippet.Base.Outcome.{Result, ok, ◌>>=◌, >>=-congr}
use elixir_sippet.Base.Tests.{Option-cases}

pub data Yields {ℓ} {A : Type ℓ} (next : Next A) : Bytes → List A → Type ℓ where
  stop : {s : Bytes} → next s ≡ none → Yields next s []
  more :
      {s rest : Bytes} {a : A} {vs : List A}
      → next s ≡ some (a, rest)
      → length rest < length s
      → Yields next rest vs
      → Yields next s (a ∷ vs)

-- The values that `accept` takes, in order.
abbrev pub filter_map {ℓ κ} : {A : Type ℓ} {B : Type κ} → (A → Option B) → List A → List B
filter_map f [] = []
filter_map f (a ∷ vs) = elim (f a) [ none ↦ filter_map f vs | some b ↦ b ∷ filter_map f vs ]

-- The body run over the values in turn, up to the first error.
abbrev pub fold_results {ℓ κ} :
    {A : Type ℓ} {S : Type κ} → (A → S → Result S) → List A → S → Result S
fold_results body [] s = ok s
fold_results body (a ∷ vs) s = body a s >>= λ s'. fold_results body vs s'

pub while_next-Yields {ℓ κ} :
    {A : Type ℓ} {S : Type κ} (next : Next A) (body : A → S → Result S) (fuel : ℕ) {text : Bytes}
    {vs : List A} (s : S)
    → length text < fuel
    → Yields next text vs
    → while_next next body fuel text s ≡ fold_results body vs s
unfolding while_next
while_next-Yields next body zero s h y = absurd (omega arith)
while_next-Yields next body (suc fuel) s h (stop e) = rw (e, while_next)
while_next-Yields next body (suc fuel) s h (more {rest} {a} {vs} e lt y) =
    rw (e, while_next)
      (>>=-congr (body a s) _ _ λ s'. while_next-Yields next body fuel s' (omega arith) y)

-- A text at which `next` answers as at a shorter one yields what that one yields.
pub Yields-eq {ℓ} :
    {A : Type ℓ} (next : Next A) {s t : Bytes} {vs : List A}
    → next s ≡ next t
    → length t ≤ length s
    → Yields next t vs
    → Yields next s vs
Yields-eq next e le (stop h) = stop (e ∙ h)
Yields-eq next e le (more h lt y) = more (e ∙ h) (omega arith) y

module _ {ℓ κ} {A : Type ℓ} {B : Type κ} (next : Next A) (accept : A → Option B) where
  find_next-fuel :
      (f g : ℕ) {s : Bytes} {vs : List A}
      → length s < f
      → length s < g
      → Yields next s vs
      → find_next next accept f s ≡ find_next next accept g s
  unfolding find_next
  find_next-fuel zero g h k y = absurd (omega arith)
  find_next-fuel (suc f) zero h k y = absurd (omega arith)
  find_next-fuel (suc f) (suc g) h k (stop e) = rw (e, find_next)
  find_next-fuel (suc f) (suc g) h k (more {rest} {a} e lt y) = elim (Option-cases (accept a)) [
    | inl h' ↦
        rw (e, find_next) (rw (h', find_next) (find_next-fuel f g (omega arith) (omega arith) y))
    | inr (b, h') ↦ rw (e, find_next) (rw (h', find_next))
  ]

  abbrev pub found : Next B
  found s = find_next next accept (rounds s) s

  -- The iterator that looks for the next good value yields the good values.
  pub find_next-Yields :
      {s : Bytes} {vs : List A} → Yields next s vs → Yields found s (filter_map accept vs)
  unfolding find_next
  find_next-Yields (stop e) = stop (rw (e, find_next))
  find_next-Yields (more {s} {rest} {a} {vs} e lt y) =
      let later = find_next-Yields y in
      elim (Option-cases (accept a)) [
        | inl h ↦
            rw (h, filter_map)
              (Yields-eq found
                (rw (e, find_next)
                  (rw (h, find_next)
                    (find_next-fuel (length s) (suc (length rest)) lt (omega arith) y)))
                (omega arith) later)
        | inr (b, h) ↦ rw (h, filter_map) (more (rw (e, find_next) (rw (h, find_next))) lt later)
      ]
