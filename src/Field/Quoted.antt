-- ===== src/Field/Quoted.antt =====
-- c_src/parser.cc: the loop of `ParseContact` and `ParseWarning` over a quoted string.
use elixir_sippet.Base.{
  ℕ, Bool, true, false, not, ◌||◌, [], ◌∷◌, ◌++◌, Bytes, All, ◌≡◌, arith, ◌==◌,
}
use elixir_sippet.Field.{scan_quoted}
use elixir_sippet.Unquote.RoundTrip.{escape}

-- Escaped text in which no character closes but `q` is scanned up to the quote mark behind it.
pub scan_quoted-escape :
    (closes : ℕ → Bool) (q : ℕ) (s rest : Bytes)
    → closes q ≡ true
    → (q == b'\\') ≡ false
    → All (λ c. (not (closes c) || c == q) ≡ true) s
    → scan_quoted closes false (escape q s ++ q ∷ rest) ≡ (escape q s, q ∷ rest)
unfolding scan_quoted
scan_quoted-escape closes q [] rest hq ne h = ground arith
scan_quoted-escape closes q (c ∷ s) rest hq ne (hc, h) =
    ground (arith, scan_quoted-escape closes q s rest hq ne h)
