-- ===== src/Field/Params/Collect.antt =====
-- c_src/parser.cc: the loops of `ParseParameters` and `ParseAuthParams`, described without the
-- iterators' states.
use elixir_sippet.Base.Yields.{Yields, stop, more, fold_results, while_next-Yields}
use elixir_sippet.Base.{
  List, [], ◌∷◌, Bytes, false, none, some, Option-cases, inl, inr, Result, ok, rounds, map, ◌≡◌,
  refl, ◌∙◌, arith,
}
use elixir_sippet.Ascii.{lower_case}
use elixir_sippet.Field.Params.{
  generic_parameters_next, name_value_pairs_next, collect_parameters, parse_auth_params,
}
use elixir_sippet.Iterators.Parameters.{Pair, generic_parameter, name_value_pair}
use elixir_sippet.Iterators.Split.{split_values, values_next-Yields}
use elixir_sippet.Iterators.{values_next}
use elixir_sippet.Unquote.{unquote}
use elixir_sippet.Value.{Params, map_put}

-- The pairs of the texts, up to the first malformed one.
abbrev pub pairs_of : List Bytes → List Pair
pairs_of [] = []
pairs_of (v ∷ vs) = elim (name_value_pair false false v) [ none ↦ [] | some p ↦ p ∷ pairs_of vs ]

-- The pairs put into a map one after the other.
abbrev pub put_pairs : (Bytes → Bytes) → (Bytes → Bytes) → List Pair → Params → Params
put_pairs key value [] m = m
put_pairs key value (p ∷ ps) m = put_pairs key value ps (map_put (key p.name) (value p.value) m)

abbrev put_pair : (Bytes → Bytes) → (Bytes → Bytes) → Pair → Params → Result Params
put_pair key value p m = ok (map_put (key p.name) (value p.value) m)

generic_parameters_next-Yields :
    {s : Bytes} {vs : List Bytes}
    → Yields (values_next b';') s vs
    → Yields generic_parameters_next s (map generic_parameter vs)
unfolding generic_parameters_next
generic_parameters_next-Yields (stop e) = stop (rw (e, generic_parameters_next))
generic_parameters_next-Yields (more e lt y) =
    more (rw (e, generic_parameters_next)) lt (generic_parameters_next-Yields y)

name_value_pairs_next-Yields :
    {s : Bytes} {vs : List Bytes}
    → Yields (values_next b',') s vs
    → Yields (name_value_pairs_next b',') s (pairs_of vs)
unfolding name_value_pairs_next
name_value_pairs_next-Yields (stop e) = stop (rw (e, name_value_pairs_next))
name_value_pairs_next-Yields (more {a} e lt y) =
    let later = name_value_pairs_next-Yields y in
    elim (Option-cases (name_value_pair false false a)) [
      | inl h ↦ rw (h, pairs_of) (stop (rw (e, name_value_pairs_next) (rw h)))
      | inr (p, h) ↦ rw (h, pairs_of) (more (rw (e, name_value_pairs_next) (rw h)) lt later)
    ]

fold-put_pairs :
    (key value : Bytes → Bytes) (ps : List Pair) (m : Params)
    → fold_results (put_pair key value) ps m ≡ ok (put_pairs key value ps m)
fold-put_pairs key value [] m = refl
fold-put_pairs key value (p ∷ ps) m = fold-put_pairs key value ps _

-- The parameters of a header never fail to parse: each text between semicolons outside quotes is
-- put into the map, its name in lower case, and a later one replaces an earlier one of that name.
pub collect_parameters-put_pairs :
    (s : Bytes)
    → collect_parameters s
      ≡ ok (put_pairs lower_case (λ v. v) (map generic_parameter (split_values b';' s)) [])
unfolding collect_parameters
collect_parameters-put_pairs s =
    while_next-Yields generic_parameters_next (put_pair lower_case (λ v. v)) (rounds s) []
      (omega arith) (generic_parameters_next-Yields (values_next-Yields b';' s))
    ∙ fold-put_pairs lower_case (λ v. v) (map generic_parameter (split_values b';' s)) []

-- The parameters of a credential never fail to parse: they are the pairs up to the first malformed
-- one, unquoted once more.
parse_auth_params-put_pairs :
    (s : Bytes)
    → parse_auth_params s ≡ ok (put_pairs (λ n. n) unquote (pairs_of (split_values b',' s)) [])
unfolding parse_auth_params
parse_auth_params-put_pairs s =
    while_next-Yields (name_value_pairs_next b',') (put_pair (λ n. n) unquote) (rounds s) []
      (omega arith) (name_value_pairs_next-Yields (values_next-Yields b',' s))
    ∙ fold-put_pairs (λ n. n) unquote (pairs_of (split_values b',' s)) []
