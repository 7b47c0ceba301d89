-- ===== src/Field/Via/Warning.antt =====
-- c_src/parser.cc: `ParseWarning` on a warning that is written from its parts.
use mathlib.Core.List.{cons-ne-nil}
use elixir_sippet.Ascii.{is_quote}
use elixir_sippet.Base.Int.{ℤ, pos, ltb_ℤ}
use elixir_sippet.Base.{
  ℕ, ◌≤◌, true, false, not, ◌||◌, [], ◌∷◌, ◌++◌, Bytes, All, ok, ◌≡◌, refl, arith, ◌==◌,
}
use elixir_sippet.Field.Quoted.{scan_quoted-escape}
use elixir_sippet.Field.Via.{parse_warn_text, parse_warning}
use elixir_sippet.Number.Decimal.{IsDigit, decimal, unsigned, string_to_int_iff}
use elixir_sippet.Tokenizer.Words.{
  NoLws, digits-NoLws, skip_lws-NoLws, skip_lws-space, skip_not_in-NoLws,
}
use elixir_sippet.Tokenizer.{finds, skip_one}
use elixir_sippet.Unquote.RoundTrip.{escape, quoted, unquote-quoted}

closes_free : (s : Bytes) → All (λ c. (not (c == b'"') || c == b'"') ≡ true) s
closes_free [] = tt
closes_free (c ∷ s) = (ground arith, closes_free s)

parse_warn_text-quoted :
    (code : ℤ) (agent text : Bytes)
    → parse_warn_text code agent (quoted b'"' text)
      ≡ ok (record { code = code; agent = agent; text = text })
unfolding parse_warn_text skip_one
parse_warn_text-quoted code agent text =
    rw
      (
        scan_quoted-escape (λ c. c == b'"') b'"' text [] refl refl (closes_free text),
        unquote-quoted b'"' text (unfold is_quote in refl),
      )
      refl

-- A warning with a code of digits from 100 to 999, an agent that is not empty and holds no space
-- and no tab, and a quoted text, one space apart, is read back, the text without its escapes.
parse_warning-text :
    (n : ℕ) (digits : Bytes) (c : ℕ) (agent text : Bytes)
    → All IsDigit (n ∷ digits)
    → 100 ≤ decimal 0 (n ∷ digits)
    → decimal 0 (n ∷ digits) ≤ 999
    → NoLws (c ∷ agent)
    → parse_warning ((n ∷ digits) ++ b' ' ∷ ((c ∷ agent) ++ b' ' ∷ quoted b'"' text))
      ≡ ok (record { code = pos (decimal 0 (n ∷ digits)); agent = c ∷ agent; text = text })
unfolding parse_warning
parse_warning-text n digits c agent text hd low high ha =
    let number = n ∷ digits in
    let word = digits-NoLws number hd in
    let rest = (c ∷ agent) ++ b' ' ∷ quoted b'"' text in
    let read =
      (string_to_int_iff number (pos (decimal 0 number))).1
        (unsigned (cons-ne-nil n digits, hd, omega arith, refl)) in
    let above : ltb_ℤ (pos (decimal 0 number)) (pos 100) ≡ false = ground arith in
    let below : ltb_ℤ (pos 999) (pos (decimal 0 number)) ≡ false = ground arith in
    rw
      (
        skip_lws-NoLws n (digits ++ b' ' ∷ rest) word.0,
        skip_not_in-NoLws number rest word,
        read,
        above,
        below,
        skip_lws-space c (agent ++ b' ' ∷ quoted b'"' text) ha.0,
        skip_not_in-NoLws (c ∷ agent) (quoted b'"' text) ha,
        skip_lws-space b'"' (escape b'"' text ++ b'"' ∷ []) (unfold finds in refl),
      )
      (parse_warn_text-quoted (pos (decimal 0 number)) (c ∷ agent) text)
