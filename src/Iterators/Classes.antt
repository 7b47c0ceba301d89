-- ===== src/Iterators/Classes.antt =====
-- c_src/utils.cc and c_src/utils.h: `ValuesIterator` and `NameValuePairsIterator` with their whole
-- state, on the state of the tokenizer that they hold. A pair of iterators is the text between them.
pub mod Values
pub mod Pairs
pub mod Loop
pub mod Generic
pub mod Lines
use elixir_sippet.Base.{
  ℕ, zero, suc, Bool, true, false, not, ◌&&◌, ◌||◌, [], ◌∷◌, none, some, Bytes, rounds, ◌==◌,
  if◌then◌else◌,
}
use elixir_sippet.Iterators.Parameters.{at_equals, is_pair_quote, has_quote}
use elixir_sippet.Iterators.{value_quotes}
use elixir_sippet.StringTokenizer.Machine.{TokenizerState, init, set_quote_chars, token}
use elixir_sippet.StringTokenizer.Machine
use elixir_sippet.Tokenizer.{skip_one, end_of_input}
use elixir_sippet.Trim.{trim_lws}
use elixir_sippet.Unquote.{split_last, unquote, strict_unquote}

-- The members of `ValuesIterator`.
pub record ValuesState : Type 0 where
  pub values : TokenizerState
  pub value : Bytes

-- The constructor
unfoldable pub values_init : Bytes → ℕ → ValuesState
unfolding init set_quote_chars
values_init string delimiter = record {
  values = set_quote_chars value_quotes (init string (delimiter ∷ []));
  value = [];
}

-- `set_quote_chars`
unfoldable values_set_quote_chars : Bytes → ValuesState → ValuesState
unfolding set_quote_chars
values_set_quote_chars quotes t = record t { values = set_quote_chars quotes t.values }

-- The loop of `GetNext`, which runs on in front of an empty value.
unfoldable pub values_loop : ℕ → ValuesState → Bool × ValuesState
unfolding token trim_lws Machine.get_next
values_loop zero t = (false, t)
values_loop (suc fuel) t =
    let (found, values) = Machine.get_next t.values in
    let value = trim_lws (token values) in
    let further = values_loop fuel (record { values = values; value = value }) in
    if not found
    then (false, record t { values = values })
    else if end_of_input value
    then further
    else (true, record { values = values; value = value })

-- `ValuesIterator::GetNext`
unfoldable pub values_get_next : ValuesState → Bool × ValuesState
unfolding values_loop
values_get_next t = values_loop (rounds t.values.token_end) t

-- The members of `NameValuePairsIterator`; `raw_value` is the text from `value_begin_` to `value_end_`.
pub record PairsState : Type 0 where
  pub props : ValuesState
  pub valid : Bool
  pub name : Bytes
  pub raw_value : Bytes
  pub unquoted_value : Bytes
  pub value_is_quoted : Bool
  pub values_optional : Bool
  pub strict_quotes : Bool

-- The constructor
unfoldable pub pairs_init : Bytes → ℕ → Bool → Bool → PairsState
unfolding values_init values_set_quote_chars
pairs_init string delimiter values_optional strict_quotes =
    let props = values_init string delimiter in
    record {
      props = if strict_quotes then values_set_quote_chars (b'"' ∷ []) props else props;
      valid = true;
      name = [];
      raw_value = [];
      unquoted_value = [];
      value_is_quoted = false;
      values_optional = values_optional;
      strict_quotes = strict_quotes;
    }

-- `value()`
unfoldable pub value : PairsState → Bytes
value t = if t.value_is_quoted then t.unquoted_value else t.raw_value

-- `return valid_ = false`
unfoldable pub invalid : PairsState → Bool × PairsState
invalid t = (false, record t { valid = false })

-- The value under a quote mark, when quotes are strict; the output is written only on success.
unfoldable pub strict_value : PairsState → Bool × PairsState
unfolding invalid strict_unquote
strict_value t = elim (strict_unquote t.raw_value) [
  | none ↦ invalid t
  | some text ↦ (true, record t { unquoted_value = text })
]

-- `Trim surrounding quotemarks off the value`
unfoldable pub quoted_value : PairsState → ℕ → Bytes → PairsState
unfolding split_last unquote
quoted_value t c s =
    if not (c == (split_last c s).1) || end_of_input s
    then record t { value_is_quoted = false; raw_value = s }
    else record t { unquoted_value = unquote (c ∷ s) }

-- `GetNext`, from the test for a quote mark on.
unfoldable pub quote_step : PairsState → Bytes → Bool × PairsState
unfolding strict_value quoted_value is_pair_quote
quote_step t [] = (true, t)
quote_step t (c ∷ s) =
    let quoted = record t { value_is_quoted = true } in
    if not (is_pair_quote t.strict_quotes c)
    then (true, t)
    else if t.strict_quotes
    then strict_value quoted
    else (true, quoted_value quoted c s)

-- `GetNext`, behind `props_.GetNext()`, which stops at `prop`.
unfoldable pub prop_step : PairsState → Bytes → Bool × PairsState
unfolding invalid quote_step at_equals has_quote skip_one trim_lws
prop_step t prop =
    let (before, equals) = at_equals prop in
    let whole = record t { name = []; raw_value = prop } in
    let value = trim_lws (skip_one equals) in
    let split = record t {
      name = trim_lws before;
      raw_value = value;
      value_is_quoted = false;
      unquoted_value = [];
    } in
    if end_of_input before
    then invalid whole
    else if end_of_input equals && not t.values_optional
    then invalid whole
    else if not (end_of_input equals) && has_quote t.strict_quotes before
    then invalid whole
    else if not (end_of_input equals) && end_of_input value
    then invalid split
    else quote_step split value

-- `NameValuePairsIterator::GetNext`
unfoldable pub pairs_get_next : PairsState → Bool × PairsState
unfolding values_get_next prop_step
pairs_get_next t =
    let (found, props) = values_get_next t.props in
    let stopped = record t { props = props } in
    if not found then (false, stopped) else prop_step stopped props.value
