-- ===== src/StringTokenizer/Modes.antt =====
-- c_src/string_tokenizer.h: what `AdvanceOne` does, told by where a character stands.
use elixir_sippet.Base.{
  ℕ, Bool, true, false, not, [], ◌∷◌, Bytes, ◌≡◌, refl, arith, ◌==◌, if◌then◌else◌,
}
use elixir_sippet.StringTokenizer.{AdvanceState, advance_one, full_take}
use elixir_sippet.Tokenizer.{finds}

-- Where a character stands: outside quotes, inside quotes opened by a character, or behind a
-- backslash inside quotes.
pub data Mode : Type 0 where
  outside : Mode
  inside : ℕ → Mode
  escaped : ℕ → Mode

abbrev pub mode_step : Bytes → Mode → ℕ → Mode
mode_step quotes outside c = if finds quotes c then inside c else outside
mode_step quotes (inside q) c =
    if c == b'\\' then escaped q else if c == q then outside else inside q
mode_step quotes (escaped q) c = inside q

abbrev pub is_cut : Bytes → Mode → ℕ → Bool
is_cut delims outside c = finds delims c
is_cut delims (inside q) c = false
is_cut delims (escaped q) c = false

abbrev pub mode_of : AdvanceState → Mode
mode_of st =
    if st.in_quote
    then (if st.in_escape then escaped st.quote_char else inside st.quote_char)
    else outside

module _ (delims quotes : Bytes) where
  pub advance_one-mode :
      (st : AdvanceState) (c : ℕ)
      → (st.in_quote ≡ false → st.in_escape ≡ false)
      → ((advance_one delims quotes st c).0 ≡ not (is_cut delims (mode_of st) c))
        × ((advance_one delims quotes st c).0 ≡ true
            → mode_of (advance_one delims quotes st c).1 ≡ mode_step quotes (mode_of st) c)
        × ((advance_one delims quotes st c).1.in_quote ≡ false
            → (advance_one delims quotes st c).1.in_escape ≡ false)
  unfolding advance_one
  advance_one-mode st c h = ground arith

  pub is_cut-outside : (m : Mode) (c : ℕ) → is_cut delims m c ≡ true → m ≡ outside
  is_cut-outside outside c h = refl
  is_cut-outside (inside q) c h = cc
  is_cut-outside (escaped q) c h = cc

  pub full_take_go :
      (st : AdvanceState) (c : ℕ) (s : Bytes)
      → (advance_one delims quotes st c).0 ≡ true
      → full_take delims quotes st (c ∷ s) ≡ (
        c ∷ (full_take delims quotes (advance_one delims quotes st c).1 s).0,
        (full_take delims quotes (advance_one delims quotes st c).1 s).1,
      )
  unfolding full_take
  full_take_go st c s h = rw h

  pub full_take_stop :
      (st : AdvanceState) (c : ℕ) (s : Bytes)
      → (advance_one delims quotes st c).0 ≡ false
      → full_take delims quotes st (c ∷ s) ≡ ([], c ∷ s)
  unfolding full_take
  full_take_stop st c s h = rw h
