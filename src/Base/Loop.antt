-- ===== src/Base/Loop.antt =====
-- The loops `while (it.GetNext()) …` over an iterator. An iterator's `GetNext` is a function `next`
-- from the text ahead of it to the value that it stops at and the text behind that value. Each call
-- moves ahead, so the length of the text bounds the rounds.
use Prim.Native.Nat.{ℕ, zero, suc}
use mathlib.Core.Option.{Option, none, some}
use elixir_sippet.Base.Lists.{Bytes, length}
use elixir_sippet.Base.Outcome.{Result, ok, ◌>>=◌}

abbrev pub Next {ℓ} : Type ℓ → Type ℓ
Next A = Bytes → Option (A × Bytes)

-- `while (lines.GetNext()) { if (…) return true; }`: the first value that `accept` takes.
unfoldable pub find_next {ℓ κ} : {A : Type ℓ} {B : Type κ} → Next A → (A → Option B) → ℕ → Next B
find_next next accept zero s = none
find_next next accept (suc fuel) s = elim (next s) [
  | none ↦ none
  | some (a, rest) ↦ elim (accept a) [
    | some b ↦ some (b, rest)
    | none ↦ find_next next accept fuel rest
  ]
]

-- `while (it.GetNext()) { … }`, with a body that may return an error.
unfoldable pub while_next {ℓ κ} :
    {A : Type ℓ} {S : Type κ} → Next A → (A → S → Result S) → ℕ → Bytes → S → Result S
while_next next body zero text s = ok s
while_next next body (suc fuel) text s = elim (next text) [
  | none ↦ ok s
  | some (a, rest) ↦ body a s >>= λ s'. while_next next body fuel rest s'
]

-- Rounds enough for any text: every `GetNext` moves over a character at least.
abbrev pub rounds : Bytes → ℕ
rounds s = suc (length s)
