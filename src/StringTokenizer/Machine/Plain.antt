-- ===== src/StringTokenizer/Machine/Plain.antt =====
-- c_src/string_tokenizer.h: `GetNext` with no option set, as the iterators call it.
use elixir_sippet.Base.{
  ℕ, ◌-◌, ◌%◌, false, ◌&&◌, [], ◌∷◌, ◌++◌, Option, none, some, Bytes, length, ◌≡◌, ◌∙◌, refl, sym,
  ap, inl, inr, Bool-cases, ◌==◌, if◌then◌else◌,
}
use elixir_sippet.StringTokenizer.Fields.{quick-eq-full}
use elixir_sippet.StringTokenizer.Machine.Calls.{quick_scan-full}
use elixir_sippet.StringTokenizer.Machine.Pieces.{first_n-append}
use elixir_sippet.StringTokenizer.Machine.{
  TokenizerState, token, Scan, quick_scan, full_scan, scan, get_next,
}
use elixir_sippet.StringTokenizer.{
  AdvanceState, initial, advance_one, full_take, full_from, full_get_next,
}
use elixir_sippet.StringTokenizer
use elixir_sippet.Tokenizer.{end_of_input, first_n}

-- The token and the text behind it, if a scan finds one.
abbrev found_token : Scan → Option (Bytes × Bytes)
found_token r =
    if r.found then some (first_n (length r.begin - length r.end) r.begin, r.end) else none

-- What a call of `GetNext` shows: the token, and the text behind it.
abbrev next_token : TokenizerState → Option (Bytes × Bytes)
next_token t =
    if (get_next t).0 then some (token (get_next t).1, (get_next t).1.token_end) else none

module _ (delims quotes : Bytes) where
  append-full_take :
      (st : AdvanceState) (s : Bytes)
      → (full_take delims quotes st s).0 ++ (full_take delims quotes st s).1 ≡ s
  unfolding full_take
  append-full_take st [] = refl
  append-full_take st (c ∷ s) = elim (Bool-cases (advance_one delims quotes st c).0) [
    | inl h ↦ rw h (ap (◌∷◌ c) (append-full_take (advance_one delims quotes st c).1 s))
    | inr h ↦ rw h refl
  ]

  taken_token :
      (st : AdvanceState) (c : ℕ) (s : Bytes)
      → first_n (length (c ∷ s) - length (full_take delims quotes st s).1) (c ∷ s)
        ≡ c ∷ (full_take delims quotes st s).0
  taken_token st c s =
      let taken = full_take delims quotes st s in
      ap (λ r. first_n (length (c ∷ r) - length taken.1) (c ∷ r)) (sym (append-full_take st s))
      ∙ first_n-append (c ∷ taken.0) taken.1

  full_scan-full_from :
      (st : AdvanceState) (s : Bytes)
      → found_token (full_scan false delims quotes st s) ≡ full_from delims quotes st s
  unfolding full_scan full_from
  full_scan-full_from st [] = refl
  full_scan-full_from st (c ∷ s) = elim (Bool-cases (advance_one delims quotes st c).0) [
    | inl h ↦ rw h (rw (taken_token (advance_one delims quotes st c).1 c s) refl)
    | inr h ↦ rw h (full_scan-full_from (advance_one delims quotes st c).1 s)
  ]

scan_plain :
    (quotes delims s : Bytes)
    → found_token (
        if end_of_input quotes && 0 == 0
        then quick_scan delims s
        else full_scan (0 % 2 == 1) delims quotes initial s)
      ≡ StringTokenizer.get_next delims quotes s
unfolding StringTokenizer.get_next full_get_next
scan_plain [] delims s =
    rw (quick_scan-full delims s, quick-eq-full delims s) (full_scan-full_from delims [] initial s)
scan_plain (q ∷ quotes) delims s = full_scan-full_from delims (q ∷ quotes) initial s

-- With no option set, what a call of `GetNext` shows is what the iterators take of it: the next
-- token of the text from `token_end_` on, and the text behind the token. It depends on nothing else
-- of the state but the delimiters and the quote characters.
pub get_next-plain :
    (t : TokenizerState)
    → t.options ≡ 0
    → next_token t ≡ StringTokenizer.get_next t.delims t.quotes t.token_end
unfolding get_next token scan
get_next-plain t h = rw h (scan_plain t.quotes t.delims t.token_end)
