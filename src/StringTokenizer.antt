-- ===== src/StringTokenizer.antt =====
-- c_src/string_tokenizer.h: `StringTokenizerT`, with its `options_` at 0, as the parser leaves them.
-- The state is the text from `token_end_` to `end_`; `GetNext` returns the token, the text from
-- `token_begin_` to `token_end_`, and the new state.
pub mod Modes
pub mod Fields
pub mod Cut
pub mod Machine
use elixir_sippet.Base.{
  ℕ, Bool, true, false, not, [], ◌∷◌, none, some, Bytes, Next, ◌==◌, if◌then◌else◌,
}
use elixir_sippet.Tokenizer.{finds, span}

-- `QuickGetNext`
unfoldable pub quick_get_next : Bytes → Next Bytes
unfolding span finds
quick_get_next delims [] = none
quick_get_next delims (c ∷ s) =
    let (token, rest) = span (λ x. not (finds delims x)) s in
    let further = quick_get_next delims s in
    if finds delims c then further else some (c ∷ token, rest)

pub record AdvanceState : Type 0 where
  pub in_quote : Bool
  pub in_escape : Bool
  pub quote_char : ℕ

abbrev pub initial : AdvanceState
initial = record { in_quote = false; in_escape = false; quote_char = 0 }

-- `AdvanceOne` inside a quoted string.
unfoldable pub advance_quoted : AdvanceState → ℕ → AdvanceState
advance_quoted st c =
    if st.in_escape
    then record st { in_escape = false }
    else if c == b'\\'
    then record st { in_escape = true }
    else if c == st.quote_char
    then record st { in_quote = false }
    else st

-- `AdvanceOne`: whether no delimiter was hit, and the new state.
unfoldable pub advance_one : Bytes → Bytes → AdvanceState → ℕ → Bool × AdvanceState
unfolding advance_quoted
advance_one delims quotes st c =
    if st.in_quote
    then (true, advance_quoted st c)
    else if finds delims c
    then (false, st)
    else (true, record st { in_quote = finds quotes c; quote_char = c })

module _ (delims quotes : Bytes) where
  -- The second loop of `FullGetNext`.
  unfoldable pub full_take : AdvanceState → Bytes → Bytes × Bytes
  full_take st [] = ([], [])
  full_take st (c ∷ s) =
      let step = advance_one delims quotes st c in
      let (token, rest) = full_take step.1 s in if step.0 then (c ∷ token, rest) else ([], c ∷ s)

  -- The first loop of `FullGetNext`, and the second from where it stops.
  unfoldable pub full_from : AdvanceState → Next Bytes
  full_from st [] = none
  full_from st (c ∷ s) =
      let step = advance_one delims quotes st c in
      let (token, rest) = full_take step.1 s in
      let further = full_from step.1 s in if step.0 then some (c ∷ token, rest) else further

-- `FullGetNext`
unfoldable pub full_get_next : Bytes → Bytes → Next Bytes
unfolding advance_one full_take full_from
full_get_next delims quotes = full_from delims quotes initial

-- `GetNext`
unfoldable pub get_next : Bytes → Bytes → Next Bytes
unfolding quick_get_next full_get_next
get_next delims [] = quick_get_next delims
get_next delims (q ∷ quotes) = full_get_next delims (q ∷ quotes)
