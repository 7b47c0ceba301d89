-- ===== src/Format/MediaType.antt =====
-- c_src/parser.cc: `ParseTypeSubtype` on a type that is written from its parts.
use elixir_sippet.Ascii.Tokens.{is_token-All}
use elixir_sippet.Ascii.{is_token_char, is_token, sip_lws, lower_case}
use elixir_sippet.Base.{
  ℕ, true, not, [], ◌∷◌, ◌++◌, map, some, Bytes, All, All-map, ok, ◌≡◌, refl, arith,
}
use elixir_sippet.Field.Params.ReadBack.{
  param_text, IsParam, DistinctNames, parse_parameters-param_text,
}
use elixir_sippet.Field.{lws_or_semicolon, parse_subtype, parse_type_subtype}
use elixir_sippet.Format.ReadBack.{params_text}
use elixir_sippet.Format.Single.{single_type_subtype_params}
use elixir_sippet.Iterators.Join.{join_values}
use elixir_sippet.Tokenizer.Span.{span-append}
use elixir_sippet.Tokenizer.Words.{skip_lws-NoLws}
use elixir_sippet.Tokenizer.{finds, span, skip_not_in, skip_to, skip_one}
use elixir_sippet.Value.{type_params, Params}

-- What a character of a token is not.
abbrev TypeChar : ℕ → Type 0
TypeChar c =
    (not (finds sip_lws c) ≡ true)
    × (not (finds (b' ' ∷ b'\t' ∷ b'/' ∷ []) c) ≡ true)
    × (not (finds lws_or_semicolon c) ≡ true)

token_char-TypeChar : (c : ℕ) → is_token_char c ≡ true → TypeChar c
unfolding is_token_char finds
token_char-TypeChar c h = ground arith

token-TypeChar : (s : Bytes) → is_token s ≡ true → All TypeChar s
token-TypeChar s h = All-map token_char-TypeChar s (is_token-All s h)

parse_subtype_word :
    (type : Bytes) (c : ℕ) (subtype rest : Bytes)
    → is_token (c ∷ subtype) ≡ true
    → parse_subtype type (b'/' ∷ ((c ∷ subtype) ++ b';' ∷ rest))
      ≡ ok (some (lower_case type, lower_case (c ∷ subtype)), b';' ∷ rest)
unfolding parse_subtype skip_one skip_not_in
parse_subtype_word type c subtype rest h =
    let plain = token-TypeChar (c ∷ subtype) h in
    let after : (skip_to b'/' (b'/' ∷ ((c ∷ subtype) ++ b';' ∷ rest))).1
        ≡ b'/' ∷ ((c ∷ subtype) ++ b';' ∷ rest) =
      unfold skip_to span in refl in
    let taken =
      span-append (λ x. not (finds lws_or_semicolon x)) (c ∷ subtype) (b';' ∷ rest)
        (All-map (λ x (t : TypeChar x). t.2) (c ∷ subtype) plain) (unfold finds in refl) in
    rw (after, skip_lws-NoLws c (subtype ++ b';' ∷ rest) plain.0.0, taken, h) refl

parse_type_subtype_words :
    (c : ℕ) (type : Bytes) (d : ℕ) (subtype rest : Bytes)
    → is_token (c ∷ type) ≡ true
    → is_token (d ∷ subtype) ≡ true
    → parse_type_subtype ((c ∷ type) ++ b'/' ∷ ((d ∷ subtype) ++ b';' ∷ rest))
      ≡ ok (some (lower_case (c ∷ type), lower_case (d ∷ subtype)), b';' ∷ rest)
unfolding parse_type_subtype skip_not_in
parse_type_subtype_words c type d subtype rest h k =
    let tail = b'/' ∷ ((d ∷ subtype) ++ b';' ∷ rest) in
    let plain = token-TypeChar (c ∷ type) h in
    let taken =
      span-append (λ x. not (finds (b' ' ∷ b'\t' ∷ b'/' ∷ []) x)) (c ∷ type) tail
        (All-map (λ x (t : TypeChar x). t.1) (c ∷ type) plain) (unfold finds in refl) in
    rw (skip_lws-NoLws c (type ++ tail) plain.0.0, taken, h)
      (parse_subtype_word (c ∷ type) d subtype rest k)

-- A type and a subtype that are tokens, with a slash between them and parameters behind them, are read
-- back in lower case.
single_type_subtype_params-text :
    (c : ℕ) (type : Bytes) (d : ℕ) (subtype : Bytes) (ps : Params)
    → is_token (c ∷ type) ≡ true
    → is_token (d ∷ subtype) ≡ true
    → All IsParam ps
    → DistinctNames ps
    → single_type_subtype_params ((c ∷ type) ++ b'/' ∷ ((d ∷ subtype) ++ params_text ps))
      ≡ ok (type_params (some (lower_case (c ∷ type), lower_case (d ∷ subtype))) ps)
unfolding single_type_subtype_params
single_type_subtype_params-text c type d subtype ps h k hp dp =
    rw
      (
        parse_type_subtype_words c type d subtype (join_values b';' (map param_text ps)) h k,
        parse_parameters-param_text [] ps tt hp dp,
      )
      refl
