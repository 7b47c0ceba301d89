-- ===== src/StringTokenizer/Cut.antt =====
-- c_src/string_tokenizer.h: the fields of a text that is written with delimiters.
use elixir_sippet.Base.{ℕ, true, false, ◌||◌, [], ◌∷◌, ◌++◌, Bytes, All, ◌≡◌, refl, arith}
use elixir_sippet.StringTokenizer.Modes.{outside}
use elixir_sippet.StringTokenizer.Fields.{fields}
use elixir_sippet.Tokenizer.{finds}

module _ (delims quotes : Bytes) where
  -- No character is a delimiter or a quote mark.
  abbrev pub Uncut : Bytes → Type 0
  Uncut v = All (λ c. (finds delims c || finds quotes c) ≡ false) v

  pub fields-append :
      (v : Bytes) (d : ℕ) (s : Bytes)
      → Uncut v
      → finds delims d ≡ true
      → fields delims quotes outside (v ++ d ∷ s) ≡ v ∷ fields delims quotes outside s
  unfolding fields
  fields-append [] d s h e = rw e refl
  fields-append (c ∷ v) d s (hc, h) e = ground (arith, fields-append v d s h e)

  pub fields-Uncut : (v : Bytes) → Uncut v → fields delims quotes outside v ≡ v ∷ []
  unfolding fields
  fields-Uncut [] h = refl
  fields-Uncut (c ∷ v) (hc, h) = ground (arith, fields-Uncut v h)
