-- ===== src/StringTokenizer/Machine/Calls.antt =====
-- c_src/string_tokenizer.h: sequences of calls of `GetNext`, whatever the options.
use elixir_sippet.Base.{
  ℕ, zero, suc, ◌%◌, ◌<◌, Bool, true, false, not, ◌&&◌, List, [], ◌∷◌, ◌++◌, Bytes, length, ◌≡◌,
  ◌∙◌, refl, inl, inr, arith, Bool-cases, ◌==◌, if◌then◌else◌,
}
use elixir_sippet.StringTokenizer.Modes.{outside}
use elixir_sippet.StringTokenizer.Machine.Pieces.{
  Piece, pieces, shown_pieces, join_pieces, join_pieces-pieces, join_pieces-shown, Shows, nothing,
  piece, full_scan-Shows, first_n-append,
}
use elixir_sippet.StringTokenizer.Machine.{
  TokenizerState, returns_delims, token, quick_scan, full_scan, scan, get_next, reset,
}
use elixir_sippet.StringTokenizer.{AdvanceState, initial, advance_one, full_take}
use elixir_sippet.Tokenizer.{finds, span, end_of_input}

quick_take :
    (delims s : Bytes) (st : AdvanceState)
    → st.in_quote ≡ false
    → (span (λ x. not (finds delims x)) s).1 ≡ (full_take delims [] st s).1
unfolding span full_take advance_one finds
quick_take delims [] st h = refl
quick_take delims (c ∷ s) st h =
    ground (arith, quick_take delims s (record st { quote_char = c }) h)

pub quick_scan-full : (delims s : Bytes) → quick_scan delims s ≡ full_scan false delims [] initial s
unfolding quick_scan full_scan
quick_scan-full delims [] = refl
quick_scan-full delims (c ∷ s) = elim (Bool-cases (finds delims c)) [
  | inl cut ↦ rw cut (quick_scan-full delims s)
  | inr kept ↦ rw (kept, quick_take delims s (record initial { quote_char = c }) refl)
]

-- The pieces that a tokenizer has ahead of it.
abbrev pub ahead : TokenizerState → List Piece
ahead t = shown_pieces (returns_delims t) t.delims t.quotes t.token_end

scan_for :
    (quotes : Bytes) (options : ℕ) (delims s : Bytes)
    → Shows (options % 2 == 1) delims quotes s (
        if end_of_input quotes && options == 0
        then quick_scan delims s
        else full_scan (options % 2 == 1) delims quotes initial s)
scan_for [] zero delims s = rw (quick_scan-full delims s) (full_scan-Shows false delims [] s)
scan_for [] (suc n) delims s =
    let set : (suc n == 0) ≡ false = ground arith in
    rw set (full_scan-Shows (suc n % 2 == 1) delims [] s)
scan_for (q ∷ quotes) options delims s = full_scan-Shows (options % 2 == 1) delims (q ∷ quotes) s

scan-Shows : (t : TokenizerState) → Shows (returns_delims t) t.delims t.quotes t.token_end (scan t)
unfolding scan
scan-Shows t = scan_for t.quotes t.options t.delims t.token_end

-- The calls of `GetNext` from a state on, with `token_is_delim` and `token` behind each one that
-- returns true, up to the one that returns false.
pub data Calls : TokenizerState → List Piece → Type 0 where
  last : {t : TokenizerState} → (get_next t).0 ≡ false → Calls t []
  call :
      {t : TokenizerState} {ps : List Piece}
      → (get_next t).0 ≡ true
      → Calls (get_next t).1 ps
      → Calls t (((get_next t).1.token_is_delim, token (get_next t).1) ∷ ps)

token_of :
    (t : TokenizerState) (f : Bytes) → (scan t).begin ≡ f ++ (scan t).end → token (get_next t).1 ≡ f
unfolding token get_next
token_of t f h = rw (token, h) (first_n-append f (scan t).end)

found_of : (t : TokenizerState) (b : Bool) → (scan t).found ≡ b → (get_next t).0 ≡ b
unfolding get_next
found_of t b h = h

ahead_next :
    (t : TokenizerState)
    → (ahead (get_next t).1 ≡ shown_pieces (returns_delims t) t.delims t.quotes (scan t).end)
      × (length (get_next t).1.token_end ≡ length (scan t).end)
      × ((get_next t).1.token_is_delim ≡ (scan t).is_delim)
unfolding get_next
ahead_next t = (refl, refl, refl)

Calls-from : (n : ℕ) (t : TokenizerState) → length t.token_end < n → Calls t (ahead t)
Calls-from zero t h = absurd (omega arith)
Calls-from (suc n) t h = elim (scan-Shows t) [
  | nothing none_left e ↦ rw e (last (found_of t false none_left))
  | piece f found begins e lt ↦
      let (same, shorter, flag) = ahead_next t in
      rw (e, ← token_of t f begins, ← same, ← flag)
        (call (found_of t true found) (Calls-from n (get_next t).1 (omega (arith, shorter))))
]

-- From every state, the calls of `GetNext` come to an end. They return in turn the fields of the
-- text ahead that are not empty, and with RETURN_DELIMS the delimiters outside quotes too, each a
-- token that `token_is_delim` tells from the others.
pub get_next-Calls : (t : TokenizerState) → Calls t (ahead t)
get_next-Calls t = Calls-from (suc (length t.token_end)) t (omega arith)

-- With RETURN_DELIMS, the tokens that the calls of `GetNext` return, put one behind the other, are
-- the text ahead: nothing is lost.
join_pieces-Calls :
    (t : TokenizerState)
    → returns_delims t ≡ true
    → (ps : List Piece) × Calls t ps × (join_pieces ps ≡ t.token_end)
join_pieces-Calls t h = (
  ahead t,
  get_next-Calls t,
  rw h (
      join_pieces-shown (pieces t.delims t.quotes outside t.token_end)
      ∙ join_pieces-pieces t.delims t.quotes outside t.token_end),
)

-- After `Reset`, the calls return what they return on the whole text, wherever the tokenizer stood.
reset-Calls :
    (t : TokenizerState)
    → Calls (reset t) (shown_pieces (returns_delims t) t.delims t.quotes t.start_pos)
reset-Calls t = unfold reset in get_next-Calls (record t { token_end = t.start_pos })
