-- ===== src/Iterators/Join.antt =====
-- c_src/utils.cc: the values iterator on values written one behind the other.
use elixir_sippet.Ascii.{is_lws}
use elixir_sippet.Base.Yields.{filter_map}
use elixir_sippet.Base.{ℕ, List, [], ◌∷◌, ◌++◌, some, Bytes, All, ◌≡◌, ◌≢◌, refl, ap, ◌∙◌, arith}
use elixir_sippet.Iterators.Split.{split_values}
use elixir_sippet.Iterators.{trimmed_value, value_quotes}
use elixir_sippet.StringTokenizer.Cut.{Uncut, fields-append, fields-Uncut}
use elixir_sippet.StringTokenizer.Modes.{outside}
use elixir_sippet.StringTokenizer.Fields.{fields, tokens}
use elixir_sippet.Tokenizer.Span.{StopsAt}
use elixir_sippet.Tokenizer.{finds}
use elixir_sippet.Trim.Trimmed.{EndsOutside, trim_lws-fixes}

-- The values with the delimiter between them.
abbrev pub join_values : ℕ → List Bytes → Bytes
join_values d [] = []
join_values d (v ∷ []) = v
join_values d (v ∷ w ∷ vs) = v ++ d ∷ join_values d (w ∷ vs)

-- A text that is not empty, neither starts nor ends with a blank, and holds neither the delimiter nor
-- a quote mark.
abbrev pub IsPlain : ℕ → Bytes → Type 0
IsPlain d v = (v ≢ []) × Uncut (d ∷ []) value_quotes v × StopsAt is_lws v × EndsOutside is_lws v

module _ (d : ℕ) where
  abbrev cuts : Bytes → List Bytes
  cuts = fields (d ∷ []) value_quotes outside

  trimmed_value-plain : (v : Bytes) → IsPlain d v → trimmed_value v ≡ some v
  unfolding trimmed_value
  trimmed_value-plain [] (ne, _, _, _) = absurd (ne refl)
  trimmed_value-plain (c ∷ v) (ne, all, stops, ends) = rw (trim_lws-fixes (c ∷ v) stops ends) refl

  keep_plain :
      (v : Bytes) (fs : List Bytes)
      → IsPlain d v
      → filter_map trimmed_value (tokens (v ∷ fs)) ≡ v ∷ filter_map trimmed_value (tokens fs)
  keep_plain [] fs (ne, _, _, _) = absurd (ne refl)
  keep_plain (c ∷ v) fs h = rw (filter_map, trimmed_value-plain (c ∷ v) h) refl

  -- Values that are not empty, neither start nor end with a blank, and hold neither the delimiter
  -- nor a quote mark, are found again in their order when they are joined with the delimiter.
  pub split_values-join_values :
      (vs : List Bytes) → All (IsPlain d) vs → split_values d (join_values d vs) ≡ vs
  split_values-join_values [] h = unfold fields in refl
  split_values-join_values (v ∷ []) (h, hs) =
      rw (fields-Uncut (d ∷ []) value_quotes v h.1) (keep_plain v [] h)
  split_values-join_values (v ∷ w ∷ vs) (h, hs) =
      rw
        (fields-append (d ∷ []) value_quotes v d (join_values d (w ∷ vs)) h.1
          (unfold finds in ground arith))
        (keep_plain v (cuts (join_values d (w ∷ vs))) h
          ∙ ap (λ us. v ∷ us) (split_values-join_values (w ∷ vs) hs))
