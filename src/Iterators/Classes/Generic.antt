-- ===== src/Iterators/Classes/Generic.antt =====
-- c_src/utils.cc and c_src/utils.h: `GenericParametersIterator` with its whole state, and its agreement
-- with the iterator as a function of the text ahead.
use elixir_sippet.Ascii.{is_quote}
use elixir_sippet.Base.{
  Bool, true, false, not, ◌&&◌, ◌||◌, [], ◌∷◌, Option, none, some, Bytes, ◌≡◌, refl, sym, ap, ◌∙◌,
  inl, inr, arith, Bool-cases, ◌==◌, if◌then◌else◌,
}
use elixir_sippet.Field.Params.{generic_parameters_next}
use elixir_sippet.Iterators.Classes.Values.{
  Delimited, found_value, values_get_next-quoted_values_next,
}
use elixir_sippet.Iterators.Classes.{ValuesState, values_init, values_get_next}
use elixir_sippet.Iterators.Parameters.{Pair, lenient_value, at_equals, generic_parameter}
use elixir_sippet.Iterators.{values_next, quoted_values_next, value_quotes}
use elixir_sippet.Tokenizer.{span, skip_one, end_of_input}
use elixir_sippet.Trim.{trim_lws, trim_left, trim_right}
use elixir_sippet.Unquote.{split_last, unquote}

-- The members; `raw_value` is the text from `value_begin_` to `value_end_`.
pub record GenericState : Type 0 where
  pub props : ValuesState
  pub valid : Bool
  pub name : Bytes
  pub raw_value : Bytes
  pub unquoted_value : Bytes
  pub value_is_quoted : Bool

-- The constructor
unfoldable pub generic_init : Bytes → GenericState
unfolding values_init
generic_init string = record {
  props = values_init string b';';
  valid = true;
  name = [];
  raw_value = [];
  unquoted_value = [];
  value_is_quoted = false;
}

-- `value()`
abbrev generic_value : GenericState → Bytes
generic_value t = if t.value_is_quoted then t.unquoted_value else t.raw_value

-- `GetNext`, from the test for a quote mark on.
unfoldable generic_quote_step : GenericState → Bytes → GenericState
unfolding is_quote split_last unquote
generic_quote_step t [] = t
generic_quote_step t (c ∷ s) =
    if not (is_quote c)
    then t
    else if not (c == (split_last c s).1) || end_of_input s
    then record t { raw_value = s }
    else record t { value_is_quoted = true; unquoted_value = unquote (c ∷ s) }

-- `GetNext`, behind `props_.GetNext()`, which stops at `prop`.
unfoldable generic_prop_step : GenericState → Bytes → GenericState
unfolding generic_quote_step at_equals skip_one trim_lws
generic_prop_step t prop =
    let (before, equals) = at_equals prop in
    let both = not (end_of_input equals) && not (end_of_input before) in
    let value = trim_lws (if both then skip_one equals else []) in
    let split = record t {
      name = trim_lws (if both then before else prop);
      raw_value = value;
      value_is_quoted = false;
      unquoted_value = [];
    } in
    generic_quote_step split value

-- `GenericParametersIterator::GetNext`
unfoldable pub generic_get_next : GenericState → Bool × GenericState
unfolding values_get_next generic_prop_step
generic_get_next t =
    let (found, props) = values_get_next t.props in
    let stopped = record t { props = props } in
    if not found then (false, stopped) else (true, generic_prop_step stopped props.value)

-- What a step leaves behind.
abbrev Leaves : GenericState → Pair → GenericState → Type 0
Leaves t p r =
    (record { name = r.name; value = generic_value r } ≡ p)
    × (r.valid ≡ t.valid)
    × (r.props ≡ t.props)

quote_step-Leaves :
    (t : GenericState) (s : Bytes)
    → t.raw_value ≡ s
    → t.value_is_quoted ≡ false
    → Leaves t (record { name = t.name; value = lenient_value s }) (generic_quote_step t s)
unfolding generic_quote_step lenient_value
quote_step-Leaves t [] e h = (rw (h, e) refl, refl, refl)
quote_step-Leaves t (c ∷ s) e h = elim (Bool-cases (is_quote c)) [
  | inr plain ↦ rw plain (rw (h, e) refl, refl, refl)
  | inl quote ↦ elim (Bool-cases (not (c == (split_last c s).1) || end_of_input s)) [
    | inl unclosed ↦ rw (quote, unclosed) (rw h refl, refl, refl)
    | inr closed ↦ rw (quote, closed) (refl, refl, refl)
  ]
]

de_morgan : (a b : Bool) → (not a && not b) ≡ not (a || b)
de_morgan a b = ground arith

lenient_nil : lenient_value (trim_lws []) ≡ []
unfolding lenient_value trim_lws trim_left trim_right span
lenient_nil = refl

prop_step-Leaves :
    (t : GenericState) (prop : Bytes) → Leaves t (generic_parameter prop) (generic_prop_step t prop)
unfolding generic_prop_step generic_parameter
prop_step-Leaves t prop =
    let before = (at_equals prop).0 in
    let equals = (at_equals prop).1 in
    let text = trim_lws (skip_one equals) in
    let bare : GenericState = record t {
      name = trim_lws prop;
      raw_value = trim_lws [];
      value_is_quoted = false;
      unquoted_value = [];
    } in
    let split : GenericState = record t {
      name = trim_lws before;
      raw_value = text;
      value_is_quoted = false;
      unquoted_value = [];
    } in
    let same = de_morgan (end_of_input equals) (end_of_input before) in
    elim (Bool-cases (end_of_input equals || end_of_input before)) [
      | inl h ↦
          rw (generic_prop_step, generic_parameter, same, h, ← lenient_nil)
            (quote_step-Leaves bare (trim_lws []) refl refl)
      | inr h ↦
          rw (generic_prop_step, generic_parameter, same, h)
            (quote_step-Leaves split text refl refl)
    ]

-- What a call shows: the pair, and the text behind it.
abbrev pub shown_parameter : Bool × GenericState → Option (Pair × Bytes)
shown_parameter (found, t) =
    if found
    then some (record { name = t.name; value = generic_value t }, t.props.values.token_end)
    else none

-- A call of `GenericParametersIterator::GetNext`, with the iterators that it holds, finds the
-- parameter that the description by the text ahead gives, and stands behind it; it leaves `valid_`
-- as it is, so no text is malformed for it. The tokenizer has the semicolon as its delimiter, the
-- two quote characters, and no option.
generic_get_next-generic_parameters_next :
    (t : GenericState)
    → Delimited b';' t.props
    → t.props.values.quotes ≡ value_quotes
    → (shown_parameter (generic_get_next t) ≡ generic_parameters_next t.props.values.token_end)
      × ((generic_get_next t).1.valid ≡ t.valid)
unfolding generic_get_next generic_parameters_next
generic_get_next-generic_parameters_next t h q =
    let props = (values_get_next t.props).1 in
    let texts : found_value (values_get_next t.props) ≡ values_next b';' t.props.values.token_end =
      unfold values_next in
      values_get_next-quoted_values_next b';' t.props h
      ∙ ap (λ qs. quoted_values_next b';' qs t.props.values.token_end) q in
    let stopped : GenericState = record t { props = props } in
    let (pair, valid, same) = prop_step-Leaves stopped props.value in
    elim (Bool-cases (values_get_next t.props).0) [
      | inl found ↦
          let next : values_next b';' t.props.values.token_end
              ≡ some (props.value, props.values.token_end) =
            sym texts ∙ rw found refl in
          rw (generic_parameters_next, found, next) (rw (pair, same) refl, valid)
      | inr none_left ↦
          let next : values_next b';' t.props.values.token_end ≡ none =
            sym texts ∙ rw none_left refl in
          rw (generic_parameters_next, none_left, next) (refl, refl)
    ]
