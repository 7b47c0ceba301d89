-- ===== src/Tokenizer/Words.antt =====
-- c_src/tokenizer.h: the moves over blanks and over words.
use elixir_sippet.Ascii.{sip_lws}
use elixir_sippet.Base.{
  ℕ, true, not, [], ◌∷◌, ◌++◌, append-nil, Bytes, All, ◌≡◌, refl, sym, ap, ◌∙◌, arith,
}
use elixir_sippet.Number.Decimal.{IsDigit}
use elixir_sippet.Tokenizer.Span.{span-append}
use elixir_sippet.Tokenizer.{span, finds, skip, skip_lws, skip_not_in}

-- Text without a space and without a tab.
abbrev pub NoLws : Bytes → Type 0
NoLws s = All (λ c. (not (finds sip_lws c)) ≡ true) s

pub skip_lws-NoLws : (c : ℕ) (s : Bytes) → not (finds sip_lws c) ≡ true → skip_lws (c ∷ s) ≡ c ∷ s
unfolding skip_lws skip span
skip_lws-NoLws c s h = ground arith

pub skip_lws-space :
    (c : ℕ) (s : Bytes) → not (finds sip_lws c) ≡ true → skip_lws (b' ' ∷ c ∷ s) ≡ c ∷ s
unfolding skip_lws skip span finds
skip_lws-space c s h = ground arith

pub skip_not_in-NoLws :
    (s rest : Bytes) → NoLws s → skip_not_in sip_lws (s ++ b' ' ∷ rest) ≡ (s, b' ' ∷ rest)
unfolding skip_not_in
skip_not_in-NoLws s rest h =
    span-append (λ c. not (finds sip_lws c)) s (b' ' ∷ rest) h (unfold finds in refl)

-- A word at the end of a text.
pub skip_not_in_end : (s : Bytes) → NoLws s → skip_not_in sip_lws s ≡ (s, [])
unfolding skip_not_in
skip_not_in_end s h =
    let word = λ (c : ℕ). not (finds sip_lws c) in
    ap (span word) (sym (append-nil s)) ∙ span-append word s [] h tt

pub digits-NoLws : (s : Bytes) → All IsDigit s → NoLws s
unfolding finds
digits-NoLws [] h = tt
digits-NoLws (c ∷ s) (h, hs) = (ground arith, digits-NoLws s hs)
