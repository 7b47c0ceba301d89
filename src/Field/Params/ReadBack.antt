-- ===== src/Field/Params/ReadBack.antt =====
-- c_src/parser.cc: `ParseParameters` on parameters that are written out.
use elixir_sippet.Ascii.{is_lws, is_quote, lower_case}
use elixir_sippet.Base.{
  ℕ, Bool, true, false, not, ◌||◌, [], ◌∷◌, ◌++◌, map, append-nil, append_assoc, none, Bytes, All,
  All-append, equal, equal_refl, equal→eq, ok, ◌≡◌, ◌≢◌, refl, sym, ap, ◌∙◌, arith, Bool-cases, inl,
  inr, ◌==◌,
}
use elixir_sippet.Field.Params.Collect.{put_pairs, collect_parameters-put_pairs}
use elixir_sippet.Field.Params.Lookup.{map_get-map_put}
use elixir_sippet.Field.Params.{parse_parameters}
use elixir_sippet.Iterators.Join.{join_values, IsPlain, split_values-join_values}
use elixir_sippet.Iterators.Parameters.{at_equals, lenient_value, generic_parameter}
use elixir_sippet.Iterators.{value_quotes}
use elixir_sippet.StringTokenizer.Cut.{Uncut}
use elixir_sippet.Tokenizer.Span.{StopsAt, span-append}
use elixir_sippet.Tokenizer.{finds, skip_to, skip_one}
use elixir_sippet.Trim.Trimmed.{EndsOutside, trim_lws-fixes}
use elixir_sippet.Value.{Params, map_put, map_get}

-- A name, an equals sign and a value.
abbrev pub param_text : Bytes × Bytes → Bytes
param_text (name, value) = name ++ b'=' ∷ value

-- No semicolon and no quote mark, and no blank at either end.
abbrev IsWord : Bytes → Type 0
IsWord s = Uncut (b';' ∷ []) value_quotes s × StopsAt is_lws s × EndsOutside is_lws s

-- A name in lower case that is not empty and has no equals sign, and a value.
abbrev pub IsParam : Bytes × Bytes → Type 0
IsParam (name, value) =
    (name ≢ [])
    × All (λ c. not (c == b'=') ≡ true) name
    × (lower_case name ≡ name)
    × IsWord name
    × IsWord value

-- No name stands twice.
abbrev pub DistinctNames : Params → Type 0
DistinctNames [] = Unit
DistinctNames ((name, value) ∷ ps) = (map_get name ps ≡ none) × DistinctNames ps

EndsOutside-append :
    (p : ℕ → Bool) (s : Bytes) (c : ℕ) (t : Bytes)
    → EndsOutside p (c ∷ t)
    → EndsOutside p (s ++ c ∷ t)
EndsOutside-append p [] c t h = h
EndsOutside-append p (x ∷ []) c t h = h
EndsOutside-append p (x ∷ y ∷ s) c t h = EndsOutside-append p (y ∷ s) c t h

EndsOutside-equals : (value : Bytes) → EndsOutside is_lws value → EndsOutside is_lws (b'=' ∷ value)
EndsOutside-equals [] h = unfold is_lws in refl
EndsOutside-equals (c ∷ value) h = h

param_text-IsPlain : (p : Bytes × Bytes) → IsParam p → IsPlain b';' (param_text p)
param_text-IsPlain ([], value) (ne, _, _, _, _) = absurd (ne refl)
param_text-IsPlain (c ∷ name, value) (_, _, _, (cut, stops, _), (cut', _, ends')) = (
  λ e. absurd cc,
  All-append (λ x. (finds (b';' ∷ []) x || finds value_quotes x) ≡ false) (c ∷ name) (b'=' ∷ value)
      cut (unfold finds in refl, cut'),
  stops,
  EndsOutside-append is_lws (c ∷ name) b'=' value (EndsOutside-equals value ends'),
)

lenient_value-plain : (v : Bytes) → Uncut (b';' ∷ []) value_quotes v → lenient_value v ≡ v
unfolding lenient_value is_quote finds
lenient_value-plain [] h = refl
lenient_value-plain (c ∷ v) (h, hs) = ground arith

generic_parameter-param_text :
    (p : Bytes × Bytes)
    → IsParam p
    → generic_parameter (param_text p) ≡ record { name = p.0; value = p.1 }
generic_parameter-param_text ([], value) (ne, _, _, _, _) = absurd (ne refl)
generic_parameter-param_text (c ∷ name, value)
      (_, no_equals, _, (_, stops, ends), (cut', stops', ends')) =
    let first = span-append (λ x. not (x == b'=')) (c ∷ name) (b'=' ∷ value) no_equals refl in
    unfold generic_parameter at_equals skip_one in
    rw
      (
        first,
        trim_lws-fixes (c ∷ name) stops ends,
        trim_lws-fixes value stops' ends',
        lenient_value-plain value cut',
      )
      refl

map_put_fresh : (k v : Bytes) (m : Params) → map_get k m ≡ none → map_put k v m ≡ m ++ (k, v) ∷ []
unfolding map_put
map_put_fresh k v [] h = refl
map_put_fresh k v ((n, w) ∷ m) h = elim (Bool-cases (equal n k)) [
  | inl same ↦ absurd (unfold map_get in ground arith)
  | inr other ↦
      rw other (ap (λ r. (n, w) ∷ r) (map_put_fresh k v m (unfold map_get in rw other at h)))
]

-- The map has none of the names to come.
abbrev Fresh : Params → Params → Type 0
Fresh m ps = All (λ (p : Bytes × Bytes). map_get p.0 m ≡ none) ps

Fresh-nil : (ps : Params) → Fresh [] ps
Fresh-nil [] = tt
Fresh-nil (p ∷ ps) = (unfold map_get in refl, Fresh-nil ps)

equal-other : (j k : Bytes) → equal j k ≡ false → equal k j ≡ false
equal-other j k h = ground (arith, equal→eq k j, equal_refl j)

put-Fresh :
    (k v : Bytes) (m ps : Params) → map_get k ps ≡ none → Fresh m ps → Fresh (map_put k v m) ps
put-Fresh k v m [] e h = tt
put-Fresh k v m ((j, w) ∷ ps) e (h, hs) = elim (Bool-cases (equal j k)) [
  | inl same ↦ absurd (unfold map_get in ground arith)
  | inr other ↦
      let distinct : equal k j ≡ false = equal-other j k other in
      (
        map_get-map_put j k v m ∙ rw (distinct, h) refl,
        put-Fresh k v m ps (unfold map_get in rw other at e) hs,
      )
]

put_written :
    (ps m : Params)
    → All IsParam ps
    → DistinctNames ps
    → Fresh m ps
    → put_pairs lower_case (λ v. v) (map generic_parameter (map param_text ps)) m ≡ m ++ ps
put_written [] m h d f = sym (append-nil m)
put_written ((k, v) ∷ ps) m (h, hs) (d, ds) (f, fs) =
    let (_, _, lower, _, _) = h in
    rw (generic_parameter-param_text (k, v) h, lower)
      (put_written ps (map_put k v m) hs ds (put-Fresh k v m ps d fs)
        ∙ ap (λ r. r ++ ps) (map_put_fresh k v m f)
        ∙ append_assoc m ((k, v) ∷ []) ps)

All-IsPlain : (ps : Params) → All IsParam ps → All (IsPlain b';') (map param_text ps)
All-IsPlain [] h = tt
All-IsPlain (p ∷ ps) (h, hs) = (param_text-IsPlain p h, All-IsPlain ps hs)

-- Parameters that are written behind a text without semicolons, each one with its name in lower
-- case, an equals sign and its value, and a semicolon between them, are read back in order, if no
-- name stands twice, is empty or has an equals sign, and no name or value has a semicolon, a quote
-- mark, or a blank at an end.
pub parse_parameters-param_text :
    (s : Bytes) (ps : Params)
    → All (λ c. not (b';' == c) ≡ true) s
    → All IsParam ps
    → DistinctNames ps
    → parse_parameters (s ++ b';' ∷ join_values b';' (map param_text ps)) ≡ ok ps
parse_parameters-param_text s ps before h d =
    let rest = join_values b';' (map param_text ps) in
    let first : skip_to b';' (s ++ b';' ∷ rest) ≡ (s, b';' ∷ rest) =
      unfold skip_to in span-append (λ x. not (b';' == x)) s (b';' ∷ rest) before refl in
    unfold parse_parameters skip_one in
    rw
      (
        first,
        collect_parameters-put_pairs rest,
        split_values-join_values b';' (map param_text ps) (All-IsPlain ps h),
        put_written ps [] h d (Fresh-nil ps),
      )
      refl
