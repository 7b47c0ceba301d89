-- ===== src/Message/Assemble.antt =====
-- c_src/parser.cc: `AssembleRawHeaders`, which puts folded lines together; `none` is `false`.
pub mod Join
pub mod Output
pub mod Folding
use elixir_sippet.Base.{
  ℕ, zero, suc, Bool, not, ◌||◌, [], ◌∷◌, ◌++◌, Option, none, some, Bytes, rounds, ◌==◌,
  if◌then◌else◌,
}
use elixir_sippet.Ascii.{is_lws}
use elixir_sippet.Tokenizer.{span}

abbrev pub is_break : ℕ → Bool
is_break c = c == b'\r' || c == b'\n'

-- Behind a carriage return: the line feed that has to follow.
unfoldable pub after_return : Bytes → Option Bytes
after_return [] = none
after_return (c ∷ s) = if c == b'\n' then some s else none

-- The text behind the line break that `s` begins with; `none` is an invalid CRLF sequence.
unfoldable pub after_break : Bytes → Option Bytes
unfolding after_return
after_break [] = some []
after_break (c ∷ s) = if c == b'\n' then some s else after_return s

-- The line feed that the output gets, unless the next line is folded or there is none.
unfoldable pub line_feed : Bytes → Bytes
unfolding is_lws
line_feed [] = []
line_feed (c ∷ s) = if not (is_lws c) then b'\n' ∷ [] else []

-- One round of the loop for each line: the line up to its break is copied, and the break is
-- inspected.
unfoldable pub assemble : ℕ → Bytes → Bytes → Option Bytes
unfolding span after_break line_feed
assemble zero s output = none
assemble (suc fuel) [] output = some output
assemble (suc fuel) (c ∷ s) output =
    let (line, rest) = span (λ x. not (is_break x)) (c ∷ s) in
    elim (after_break rest) [
      | none ↦ none
      | some next ↦ assemble fuel next (output ++ line ++ line_feed next)
    ]

unfoldable pub assemble_raw_headers : Bytes → Option Bytes
unfolding assemble
assemble_raw_headers input = assemble (rounds input) input []
