-- ===== src/Iterators/Parameters.antt =====
-- c_src/utils.cc: `GenericParametersIterator` and `NameValuePairsIterator`.
use elixir_sippet.Base.{
  ℕ, Bool, false, not, ◌&&◌, ◌||◌, [], ◌∷◌, Option, none, some, Bytes, ◌==◌, if◌then◌else◌,
}
use elixir_sippet.Ascii.{is_quote}
use elixir_sippet.Tokenizer.{span, skip_one, end_of_input}
use elixir_sippet.Trim.{trim_lws}
use elixir_sippet.Unquote.{split_last, unquote, strict_unquote}

-- What `name()` and `value()` return.
pub record Pair : Type 0 where
  pub name : Bytes
  pub value : Bytes

-- The value behind the equals sign, trimmed: a quoted one is unquoted; with no closing mark like the
-- opening one, the opening mark alone is left out.
unfoldable pub lenient_value : Bytes → Bytes
unfolding is_quote split_last unquote
lenient_value [] = []
lenient_value (c ∷ s) =
    let (body, last) = split_last c s in
    if not (is_quote c)
    then c ∷ s
    else if not (c == last) || end_of_input s
    then s
    else unquote (c ∷ s)

-- The text up to the first equals sign, and the text from it on.
unfoldable pub at_equals : Bytes → Bytes × Bytes
unfolding span
at_equals = span (λ c. not (c == b'='))

-- `GenericParametersIterator::GetNext`, behind `props_.GetNext()`.
unfoldable pub generic_parameter : Bytes → Pair
unfolding at_equals trim_lws lenient_value skip_one
generic_parameter prop =
    let (before, equals) = at_equals prop in
    if end_of_input equals || end_of_input before
    then record { name = trim_lws prop; value = [] }
    else record { name = trim_lws before; value = lenient_value (trim_lws (skip_one equals)) }

-- `NameValuePairsIterator::IsQuote`
unfoldable pub is_pair_quote : Bool → ℕ → Bool
unfolding is_quote
is_pair_quote strict_quotes c = if strict_quotes then c == b'"' else is_quote c

unfoldable pub has_quote : Bool → Bytes → Bool
unfolding is_pair_quote
has_quote strict_quotes [] = false
has_quote strict_quotes (c ∷ s) = is_pair_quote strict_quotes c || has_quote strict_quotes s

-- The value of a pair; `none` sets `valid_` to false.
unfoldable pub pair_value : Bool → Bytes → Option Bytes
unfolding lenient_value strict_unquote is_pair_quote
pair_value strict_quotes [] = some []
pair_value strict_quotes (c ∷ s) =
    if strict_quotes && is_pair_quote strict_quotes c
    then strict_unquote (c ∷ s)
    else if is_pair_quote strict_quotes c
    then some (lenient_value (c ∷ s))
    else some (c ∷ s)

-- `NameValuePairsIterator::GetNext`, behind `props_.GetNext()`; `none` sets `valid_` to false.
unfoldable pub name_value_pair : Bool → Bool → Bytes → Option Pair
unfolding at_equals trim_lws has_quote pair_value skip_one
name_value_pair values_optional strict_quotes prop =
    let (before, equals) = at_equals prop in
    let value = trim_lws (skip_one equals) in
    if end_of_input before
    then none
    else if end_of_input equals && not values_optional
    then none
    else if not (end_of_input equals) && has_quote strict_quotes before
    then none
    else if not (end_of_input equals) && end_of_input value
    then none
    else elim (pair_value strict_quotes value) [
      | none ↦ none
      | some text ↦ some (record { name = trim_lws before; value = text })
    ]
