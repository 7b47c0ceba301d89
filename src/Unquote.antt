-- ===== src/Unquote.antt =====
-- c_src/utils.cc: `UnquoteImpl`, `StrictUnquote` and `Unquote`.
pub mod RoundTrip
use elixir_sippet.Base.{
  ℕ, Bool, true, false, not, ◌&&◌, [], ◌∷◌, ◌++◌, Option, none, some, Bytes, ◌==◌, if◌then◌else◌,
}
use elixir_sippet.Ascii.{is_quote}

-- The loop over the text between the quote marks, with `prev_escape` and `unescaped`.
unfoldable pub unescape : Bool → ℕ → Bytes → Bool → Bytes → Option Bytes
unescape strict quote [] prev_escape unescaped =
    if strict && prev_escape then none else some unescaped
unescape strict quote (c ∷ s) prev_escape unescaped =
    let escape = c == b'\\' && not prev_escape in
    let rest = unescape strict quote s escape (if escape then unescaped else unescaped ++ c ∷ []) in
    if not escape && strict && not prev_escape && c == quote then none else rest

-- The text without its last character, and that character.
unfoldable pub split_last : ℕ → Bytes → Bytes × ℕ
split_last c [] = ([], c)
split_last c (d ∷ s) = let (body, last) = split_last d s in (c ∷ body, last)

-- The text behind the opening quote mark `quote`: it is at least a closing mark.
unfoldable pub unquote_body : Bool → ℕ → Bytes → Option Bytes
unfolding unescape split_last
unquote_body strict quote [] = none
unquote_body strict quote (c ∷ s) =
    let (body, last) = split_last c s in
    let inner = unescape strict quote body false [] in if quote == last then inner else none

unfoldable pub unquote_impl : Bool → Bytes → Option Bytes
unfolding unquote_body is_quote
unquote_impl strict [] = none
unquote_impl strict (quote ∷ s) =
    if not (is_quote quote)
    then none
    else if strict && not (quote == b'"')
    then none
    else unquote_body strict quote s

unfoldable pub strict_unquote : Bytes → Option Bytes
unfolding unquote_impl
strict_unquote = unquote_impl true

unfoldable pub unquote : Bytes → Bytes
unfolding unquote_impl
unquote s = elim (unquote_impl false s) [ some text ↦ text | none ↦ s ]
