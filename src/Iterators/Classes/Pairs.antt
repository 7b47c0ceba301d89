-- ===== src/Iterators/Classes/Pairs.antt =====
-- c_src/utils.cc: `NameValuePairsIterator` with its state, against the iterator as a function of the text
-- ahead.
pub mod Written
use elixir_sippet.Ascii.{is_quote}
use elixir_sippet.Base.{
  ℕ, Bool, true, false, not, ◌&&◌, ◌||◌, [], ◌∷◌, Option, none, some, Bytes, ◌≡◌, refl, sym, ◌∙◌,
  inl, inr, arith, Bool-cases, Option-cases, some_inj, ◌==◌, if◌then◌else◌,
}
use elixir_sippet.Iterators.Classes.Values.{Delimited, values_get_next-quoted_values_next}
use elixir_sippet.Iterators.Classes.{
  values_get_next, PairsState, value, invalid, strict_value, quoted_value, quote_step, prop_step,
  pairs_get_next,
}
use elixir_sippet.Iterators.Parameters.{
  Pair, lenient_value, at_equals, is_pair_quote, has_quote, pair_value, name_value_pair,
}
use elixir_sippet.Iterators.{quoted_values_next}
use elixir_sippet.Tokenizer.{skip_one, end_of_input}
use elixir_sippet.Trim.{trim_lws}
use elixir_sippet.Unquote.{split_last, strict_unquote}

-- The pair that the accessors show, if a call finds one.
abbrev found_pair : Bool × PairsState → Option Pair
found_pair (found, t) = if found then some (record { name = t.name; value = value t }) else none

-- Whether there is a value.
abbrev pub is_some {ℓ} : {A : Type ℓ} → Option A → Bool
is_some none = false
is_some (some a) = true

-- What a step leaves behind: the pair, `valid_`, and where the iterator over the texts stands.
abbrev pub Leaves : PairsState → Option Pair → Bool × PairsState → Type 0
Leaves t pair r =
    (found_pair r ≡ pair)
    × (r.1.valid ≡ (t.valid && is_some pair))
    × (r.1.props ≡ t.props)
    × (r.1.values_optional ≡ t.values_optional)
    × (r.1.strict_quotes ≡ t.strict_quotes)

named : Bytes → Option Bytes → Option Pair
named name none = none
named name (some text) = some (record { name = name; value = text })

invalid-Leaves : (t : PairsState) → Leaves t none (invalid t)
unfolding invalid
invalid-Leaves t = (refl, ground arith, refl, refl, refl)

kept : (b : Bool) → b ≡ (b && true)
kept b = ground arith

strict_value-Leaves :
    (t : PairsState) (s : Bytes)
    → t.raw_value ≡ s
    → t.value_is_quoted ≡ true
    → Leaves t (named t.name (strict_unquote s)) (strict_value t)
unfolding strict_value named value
strict_value-Leaves t s r h = elim (Option-cases (strict_unquote s)) [
  | inl e ↦ rw (strict_value, r, e) (invalid-Leaves t)
  | inr (text, e) ↦ rw (strict_value, r, e) (rw h refl, kept t.valid, refl, refl, refl)
]

quoted_value-Leaves :
    (t : PairsState) (c : ℕ) (s : Bytes)
    → t.value_is_quoted ≡ true
    → is_quote c ≡ true
    → Leaves t (named t.name (some (lenient_value (c ∷ s)))) (true, quoted_value t c s)
unfolding quoted_value named value lenient_value
quoted_value-Leaves t c s h q =
    elim (Bool-cases (not (c == (split_last c s).1) || end_of_input s)) [
      | inl unclosed ↦ rw (unclosed, q) (refl, kept t.valid, refl, refl, refl)
      | inr closed ↦ rw (closed, q) (rw h refl, kept t.valid, refl, refl, refl)
    ]

and_false : (b : Bool) → (b && false) ≡ false
and_false b = ground arith

quote_step-Leaves :
    (t : PairsState) (s : Bytes)
    → t.raw_value ≡ s
    → t.value_is_quoted ≡ false
    → Leaves t (named t.name (pair_value t.strict_quotes s)) (quote_step t s)
unfolding quote_step pair_value named value
quote_step-Leaves t [] e h = (rw (h, e) refl, kept t.valid, refl, refl, refl)
quote_step-Leaves t (c ∷ s) e h = elim (Bool-cases (is_pair_quote t.strict_quotes c)) [
  | inr plain ↦
      rw (plain, and_false t.strict_quotes) (rw (h, e) refl, kept t.valid, refl, refl, refl)
  | inl quote ↦ elim (Bool-cases t.strict_quotes) [
    | inl strict ↦
        rw (quote, strict)
          (strict_value-Leaves (record t { value_is_quoted = true; strict_quotes = true }) (c ∷ s) e
            refl)
    | inr lenient ↦
        rw (quote, lenient)
          (quoted_value-Leaves (record t { value_is_quoted = true; strict_quotes = false }) c s refl
            (rw lenient at quote))
  ]
]

named_elim :
    (name : Bytes) (o : Option Bytes)
    → named name o
      ≡ elim o [ none ↦ none | some text ↦ some (record { name = name; value = text }) ]
unfolding named
named_elim name none = refl
named_elim name (some text) = refl

-- From a text on, the class and the function of the text agree.
pub prop_step-Leaves :
    (t : PairsState) (prop : Bytes)
    → Leaves t (name_value_pair t.values_optional t.strict_quotes prop) (prop_step t prop)
unfolding prop_step name_value_pair
prop_step-Leaves t prop =
    let before = (at_equals prop).0 in
    let equals = (at_equals prop).1 in
    let text = trim_lws (skip_one equals) in
    let whole : PairsState = record t { name = []; raw_value = prop } in
    let split : PairsState = record t {
      name = trim_lws before;
      raw_value = text;
      value_is_quoted = false;
      unquoted_value = [];
    } in
    elim (Bool-cases (end_of_input before)) [
      | inl h ↦ rw (prop_step, name_value_pair, h) (invalid-Leaves whole)
      | inr h ↦ elim (Bool-cases (end_of_input equals && not t.values_optional)) [
        | inl k ↦ rw (prop_step, name_value_pair, h, k) (invalid-Leaves whole)
        | inr k ↦
            elim (Bool-cases (not (end_of_input equals) && has_quote t.strict_quotes before)) [
              | inl l ↦ rw (prop_step, name_value_pair, h, k, l) (invalid-Leaves whole)
              | inr l ↦ elim (Bool-cases (not (end_of_input equals) && end_of_input text)) [
                | inl e ↦ rw (prop_step, name_value_pair, h, k, l, e) (invalid-Leaves split)
                | inr e ↦
                    rw
                      (
                        prop_step,
                        name_value_pair,
                        h,
                        k,
                        l,
                        e,
                        ← named_elim (trim_lws before) (pair_value t.strict_quotes text),
                      )
                      (quote_step-Leaves split text refl refl)
              ]
            ]
      ]
    ]

-- The next pair of the texts, and the text behind it, if the next text is one.
abbrev pub next_pair : Bool → Bool → Option (Bytes × Bytes) → Option (Pair × Bytes)
next_pair values_optional strict_quotes none = none
next_pair values_optional strict_quotes (some (prop, rest)) =
    elim (name_value_pair values_optional strict_quotes prop) [
      | none ↦ none
      | some p ↦ some (p, rest)
    ]

-- Whether there is no next text, or it is a pair.
abbrev pub next_valid : Bool → Bool → Option (Bytes × Bytes) → Bool
next_valid values_optional strict_quotes none = true
next_valid values_optional strict_quotes (some (prop, rest)) =
    is_some (name_value_pair values_optional strict_quotes prop)

-- The pair, and the text behind it, if a call finds one.
abbrev pub shown_pair : Bool × PairsState → Option (Pair × Bytes)
shown_pair (found, t) =
    if found
    then some (record { name = t.name; value = value t }, t.props.values.token_end)
    else none

shown_of :
    (t : PairsState) (o : Option Pair) (r : Bool × PairsState)
    → Leaves t o r
    → shown_pair r ≡ elim o [ none ↦ none | some p ↦ some (p, t.props.values.token_end) ]
shown_of t none (true, t') (h, v, e, _, _) = absurd cc
shown_of t none (false, t') (h, v, e, _, _) = refl
shown_of t (some p) (false, t') (h, v, e, _, _) = absurd cc
shown_of t (some p) (true, t') (h, v, e, _, _) =
    let same : record { name = t'.name; value = value t' } ≡ p = some_inj h in rw (same, e) refl

-- A call of `NameValuePairsIterator::GetNext`, with the iterator and the tokenizer that it holds,
-- finds the pair that the description by the text ahead gives, and stands behind it; it clears
-- `valid_` exactly where the next text is no pair, and nothing sets it again. The tokenizer has one
-- delimiter and no option.
pub pairs_get_next-name_value_pair :
    (d : ℕ) (t : PairsState)
    → Delimited d t.props
    → (shown_pair (pairs_get_next t)
        ≡ next_pair t.values_optional t.strict_quotes
            (quoted_values_next d t.props.values.quotes t.props.values.token_end))
      × ((pairs_get_next t).1.valid ≡ (
          t.valid
          && next_valid t.values_optional t.strict_quotes
              (quoted_values_next d t.props.values.quotes t.props.values.token_end)))
unfolding pairs_get_next
pairs_get_next-name_value_pair d t h =
    let props = (values_get_next t.props).1 in
    let texts = values_get_next-quoted_values_next d t.props h in
    let stopped : PairsState = record t { props = props } in
    let leaves = prop_step-Leaves stopped props.value in
    elim (Bool-cases (values_get_next t.props).0) [
      | inl found ↦
          let next : quoted_values_next d t.props.values.quotes t.props.values.token_end
              ≡ some (props.value, props.values.token_end) =
            sym texts ∙ rw found refl in
          rw (found, next) (shown_of stopped _ _ leaves, leaves.1)
      | inr none_left ↦
          let next : quoted_values_next d t.props.values.quotes t.props.values.token_end ≡ none =
            sym texts ∙ rw none_left refl in
          rw (none_left, next) (refl, kept t.valid)
    ]
