-- ===== src/Iterators.antt =====
-- c_src/utils.cc: the iterators over header lines, over the values of a header and over their
-- parameters. A step of an iterator is its `GetNext`: it takes the text ahead, and returns what the
-- iterator's accessors show then and the text behind it, or `none` for `false`.
pub mod Parameters
pub mod Headers
pub mod Split
pub mod Join
pub mod Classes
use elixir_sippet.Base.{
  if◌then◌else◌, ℕ, [], ◌∷◌, Option, none, some, Bytes, Next, find_next, rounds,
}
use elixir_sippet.StringTokenizer.{get_next}
use elixir_sippet.Tokenizer.{end_of_input}
use elixir_sippet.Trim.{trim_lws}

-- A value of the list, if its trimmed text is not empty: `bypass empty values`.
unfoldable pub trimmed_value : Bytes → Option Bytes
unfolding trim_lws
trimmed_value token = if end_of_input (trim_lws token) then none else some (trim_lws token)

-- The quote characters of a values iterator, `'` and `"`.
abbrev pub value_quotes : Bytes
value_quotes = b'\'' ∷ b'"' ∷ []

-- `ValuesIterator::GetNext`, with its quote characters.
unfoldable pub quoted_values_next : ℕ → Bytes → Next Bytes
unfolding find_next get_next trimmed_value
quoted_values_next delimiter quotes s =
    find_next (get_next (delimiter ∷ []) quotes) trimmed_value (rounds s) s

unfoldable pub values_next : ℕ → Next Bytes
unfolding quoted_values_next
values_next delimiter = quoted_values_next delimiter value_quotes
