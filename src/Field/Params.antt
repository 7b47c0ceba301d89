-- ===== src/Field/Params.antt =====
-- c_src/parser.cc: `ParseParameters` and `ParseAuthParams`.
pub mod Collect
pub mod Lookup
pub mod ReadBack
use elixir_sippet.Base.{ℕ, false, [], none, some, Bytes, Next, Result, ok, while_next, rounds}
use elixir_sippet.Ascii.{lower_case}
use elixir_sippet.Iterators.Parameters.{Pair, generic_parameter, name_value_pair}
use elixir_sippet.Iterators.{values_next}
use elixir_sippet.Tokenizer.{skip_to, skip_one}
use elixir_sippet.Unquote.{unquote}
use elixir_sippet.Value.{Params, map_put}

-- `GenericParametersIterator::GetNext`
unfoldable pub generic_parameters_next : Next Pair
generic_parameters_next s = elim (values_next b';' s) [
  | none ↦ none
  | some (prop, rest) ↦ some (generic_parameter prop, rest)
]

-- `NameValuePairsIterator::GetNext`, with the constructor's defaults `REQUIRED` and `NOT_STRICT`.
unfoldable pub name_value_pairs_next : ℕ → Next Pair
name_value_pairs_next delimiter s = elim (values_next delimiter s) [
  | none ↦ none
  | some (prop, rest) ↦ elim (name_value_pair false false prop) [
    | none ↦ none
    | some pair ↦ some (pair, rest)
  ]
]

-- The loop of `ParseParameters`.
unfoldable pub collect_parameters : Bytes → Result Params
collect_parameters s =
    while_next generic_parameters_next (λ p m. ok (map_put (lower_case p.name) p.value m))
      (rounds s) s []

-- `ParseParameters`; the tokenizer is read no further by any caller.
unfoldable pub parse_parameters : Bytes → Result Params
parse_parameters tok = collect_parameters (skip_one (skip_to b';' tok).1)

-- `ParseAuthParams`
unfoldable pub parse_auth_params : Bytes → Result Params
parse_auth_params s =
    while_next (name_value_pairs_next b',') (λ p m. ok (map_put p.name (unquote p.value) m))
      (rounds s) s []
