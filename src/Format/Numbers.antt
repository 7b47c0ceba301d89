-- ===== src/Format/Numbers.antt =====
-- c_src/parser.cc: `ParseMimeVersion` and `ParseRetryAfter` on values that are written from their parts.
use mathlib.Core.List.{cons-ne-nil}
use elixir_sippet.Base.Int.{pos}
use elixir_sippet.Base.{
  ℕ, ◌≤◌, true, not, [], ◌∷◌, ◌++◌, Option-cases, inl, inr, Bytes, All, ok, ◌≡◌, refl, arith, ◌==◌,
}
use elixir_sippet.Field.Comment.{Balanced, parse_comment-Balanced}
use elixir_sippet.Field.Params.ReadBack.{IsParam, DistinctNames, parse_parameters-param_text}
use elixir_sippet.Field.{parse_comment}
use elixir_sippet.Format.ReadBack.{params_text}
use elixir_sippet.Format.Single.{
  parse_mime_version, parse_retry_after, retry_comment, find_position, position_lt,
}
use elixir_sippet.Number.Decimal.{IsDigit, decimal, unsigned, string_to_int_iff}
use elixir_sippet.Number.{string_to_int}
use elixir_sippet.Tokenizer.Span.{span-append}
use elixir_sippet.Tokenizer.Words.{digits-NoLws, skip_lws-NoLws}
use elixir_sippet.Tokenizer.{finds, span, skip_to, skip_one, skip_not_in}
use elixir_sippet.Trim.{trim_lws}
use elixir_sippet.Value.{mime_version, retry_after, Params}

-- One or more digits, of a number that fits an `int`.
abbrev IsNumber : ℕ → Bytes → Type 0
IsNumber n digits = All IsDigit (n ∷ digits) × (decimal 0 (n ∷ digits) ≤ 2147483647)

number_read :
    (n : ℕ) (digits : Bytes)
    → IsNumber n digits
    → string_to_int (n ∷ digits) ≡ (true, pos (decimal 0 (n ∷ digits)))
number_read n digits (h, le) =
    (string_to_int_iff (n ∷ digits) (pos (decimal 0 (n ∷ digits)))).1
      (unsigned (cons-ne-nil n digits, h, le, refl))

digits-no_dot : (s : Bytes) → All IsDigit s → All (λ x. not (b'.' == x) ≡ true) s
digits-no_dot [] h = tt
digits-no_dot (c ∷ s) (h, hs) = (ground arith, digits-no_dot s hs)

-- A major and a minor number with a dot between them are read back, if both fit an `int`.
parse_mime_version-text :
    (m : ℕ) (major : Bytes) (n : ℕ) (minor : Bytes)
    → IsNumber m major
    → IsNumber n minor
    → parse_mime_version ((m ∷ major) ++ b'.' ∷ n ∷ minor)
      ≡ ok (mime_version (pos (decimal 0 (m ∷ major))) (pos (decimal 0 (n ∷ minor))))
unfolding parse_mime_version skip_to skip_one
parse_mime_version-text m major n minor h k =
    rw
      (
        skip_lws-NoLws m (major ++ b'.' ∷ n ∷ minor) (digits-NoLws (m ∷ major) h.0).0,
        span-append (λ x. not (b'.' == x)) (m ∷ major) (b'.' ∷ n ∷ minor)
            (digits-no_dot (m ∷ major) h.0) refl,
        skip_lws-NoLws n minor (digits-NoLws (n ∷ minor) k.0).0,
        number_read m major h,
        number_read n minor k,
      )
      refl

-- The characters that end the number of `Retry-After`.
abbrev number_end : Bytes
number_end = b' ' ∷ b'\t' ∷ b'(' ∷ b';' ∷ []

digits-number_end : (s : Bytes) → All IsDigit s → All (λ x. not (finds number_end x) ≡ true) s
unfolding finds
digits-number_end [] h = tt
digits-number_end (c ∷ s) (h, hs) = (ground arith, digits-number_end s hs)

-- A parenthesis behind a space stands in front of every semicolon behind it.
comment_first :
    (s : Bytes)
    → position_lt (find_position b'(' (b' ' ∷ b'(' ∷ s)) (find_position b';' (b' ' ∷ b'(' ∷ s))
      ≡ true
unfolding position_lt find_position
comment_first s = elim (Option-cases (find_position b';' s)) [
  | inl e ↦ rw (find_position, e) refl
  | inr (i, e) ↦ rw (find_position, e) (ground arith)
]

comment_read :
    (s rest : Bytes)
    → Balanced s
    → parse_comment (b' ' ∷ b'(' ∷ (s ++ b')' ∷ rest)) ≡ ok (trim_lws s, rest)
unfolding parse_comment skip_to skip_one span
comment_read s rest b = parse_comment-Balanced s rest b

-- A delay, a comment in balanced parentheses and parameters are read back, the comment trimmed, if the
-- delay fits an `int`.
parse_retry_after-text :
    (n : ℕ) (delay : Bytes) (comment : Bytes) (ps : Params)
    → IsNumber n delay
    → Balanced comment
    → All IsParam ps
    → DistinctNames ps
    → parse_retry_after ((n ∷ delay) ++ b' ' ∷ b'(' ∷ (comment ++ b')' ∷ params_text ps))
      ≡ ok (retry_after (pos (decimal 0 (n ∷ delay))) (trim_lws comment) ps)
unfolding parse_retry_after retry_comment skip_not_in skip_to
parse_retry_after-text n delay comment ps h b hp d =
    let behind = comment ++ b')' ∷ params_text ps in
    let text = b' ' ∷ b'(' ∷ behind in
    rw
      (
        skip_lws-NoLws n (delay ++ text) (digits-NoLws (n ∷ delay) h.0).0,
        span-append (λ x. not (finds number_end x)) (n ∷ delay) text
            (digits-number_end (n ∷ delay) h.0) (unfold finds in refl),
        number_read n delay h,
        comment_first behind,
        comment_read comment (params_text ps) b,
        parse_parameters-param_text [] ps tt hp d,
      )
      refl
