-- ===== src/Field/Params/Lookup.antt =====
-- c_src/parser.cc: what stands in the map of the parameters, and parameters that are written out.
use elixir_sippet.Ascii.{lower_case}
use elixir_sippet.Base.{
  List, [], ◌∷◌, map, Option, none, some, or_else, or_else-none, or_else_assoc, or_else-if, Bytes,
  equal, equal_refl, equal→eq, ok, ◌≡◌, refl, sym, ap, ◌∙◌, arith, if◌then◌else◌,
}
use elixir_sippet.Field.Params.Collect.{put_pairs, collect_parameters-put_pairs}
use elixir_sippet.Field.Params.{collect_parameters}
use elixir_sippet.Iterators.Parameters.{Pair, generic_parameter}
use elixir_sippet.Iterators.Split.{split_values}
use elixir_sippet.Value.{Params, map_put, map_get}

-- After a parameter was put into the map.
pub map_get-map_put :
    (j k v : Bytes) (m : Params)
    → map_get j (map_put k v m) ≡ (if equal k j then some v else map_get j m)
unfolding map_get map_put
map_get-map_put j k v [] = refl
map_get-map_put j k v ((n, w) ∷ m) = ground (
  arith,
  map_get-map_put j k v m,
  equal→eq n k,
  equal→eq n j,
  equal→eq k j,
  equal_refl k,
  equal_refl n,
)

-- The value of the last pair whose name in lower case is the one that is asked for.
abbrev pub last_value : Bytes → List Pair → Option Bytes
last_value name [] = none
last_value name (p ∷ ps) =
    or_else (last_value name ps) (if equal (lower_case p.name) name then some p.value else none)

map_get-put_pairs :
    (name : Bytes) (ps : List Pair) (m : Params)
    → map_get name (put_pairs lower_case (λ v. v) ps m)
      ≡ or_else (last_value name ps) (map_get name m)
map_get-put_pairs name [] m = refl
map_get-put_pairs name (p ∷ ps) m =
    map_get-put_pairs name ps (map_put (lower_case p.name) p.value m)
    ∙ ap (or_else (last_value name ps)) (
        map_get-map_put name (lower_case p.name) p.value m
        ∙ sym (or_else-if (equal (lower_case p.name) name) p.value (map_get name m)))
    ∙ sym (or_else_assoc (last_value name ps) _ (map_get name m))

-- The parameters of a header never fail to parse, and under each name stands the value of the last
-- of the texts between semicolons outside quotes whose name in lower case it is.
pub collect_parameters-map_get :
    (s : Bytes)
    → (m : Params) × (collect_parameters s ≡ ok m)
      × ((name : Bytes)
          → map_get name m ≡ last_value name (map generic_parameter (split_values b';' s)))
collect_parameters-map_get s = (
  put_pairs lower_case (λ v. v) (map generic_parameter (split_values b';' s)) [],
  collect_parameters-put_pairs s,
  λ name.
      map_get-put_pairs name (map generic_parameter (split_values b';' s)) []
      ∙ unfold map_get in
        or_else-none (last_value name (map generic_parameter (split_values b';' s))),
)
