-- ===== src/StringTokenizer/Machine/Pieces.antt =====
-- c_src/string_tokenizer.h: what the calls of `GetNext` return in turn, whatever the options. The
-- independent description is one pass over the text that cuts it into fields and delimiters.
use elixir_sippet.Base.{
  ℕ, ◌+◌, ◌-◌, ◌≤◌, ◌<◌, Bool, true, false, not, ◌&&◌, ◌||◌, List, [], ◌∷◌, ◌++◌, Bytes, length,
  length-append, ◌≡◌, ◌∙◌, refl, sym, ap, subst, inl, inr, arith, Bool-cases, if◌then◌else◌,
}
use elixir_sippet.StringTokenizer.Modes.{
  Mode, outside, mode_step, is_cut, mode_of, advance_one-mode, is_cut-outside, full_take_go,
  full_take_stop,
}
use elixir_sippet.StringTokenizer.Machine.{Scan, full_scan}
use elixir_sippet.StringTokenizer.{AdvanceState, initial, advance_one, full_take}
use elixir_sippet.Tokenizer.{finds, end_of_input, first_n}

-- A piece of a text, and whether it is a delimiter.
abbrev pub Piece : Type 0
Piece = Bool × Bytes

-- A character put in front of the first piece.
abbrev push_piece : ℕ → List Piece → List Piece
push_piece c [] = (false, c ∷ []) ∷ []
push_piece c ((b, f) ∷ fs) = (b, c ∷ f) ∷ fs

-- The fields of a text, some of them empty, with the delimiters between them.
module _ (delims quotes : Bytes) where
  unfoldable pub pieces : Mode → Bytes → List Piece
  pieces m [] = (false, []) ∷ []
  pieces m (c ∷ s) =
      let cut = is_cut delims m c in
      let rest = pieces (if cut then outside else mode_step quotes m c) s in
      if cut then (false, []) ∷ (true, c ∷ []) ∷ rest else push_piece c rest

-- The pieces that are not empty, without the delimiters unless they are kept.
abbrev pub shown : Bool → List Piece → List Piece
shown keep [] = []
shown keep ((b, f) ∷ fs) =
    let rest = shown keep fs in if end_of_input f || (b && not keep) then rest else (b, f) ∷ rest

-- The text of the pieces.
abbrev pub join_pieces : List Piece → Bytes
join_pieces [] = []
join_pieces ((b, f) ∷ fs) = f ++ join_pieces fs

-- Cutting a text into pieces loses nothing.
pub join_pieces-pieces :
    (delims quotes : Bytes) (m : Mode) (s : Bytes) → join_pieces (pieces delims quotes m s) ≡ s
unfolding pieces
join_pieces-pieces delims quotes m [] = refl
join_pieces-pieces delims quotes m (c ∷ s) = elim (Bool-cases (is_cut delims m c)) [
  | inl cut ↦ rw cut (ap (◌∷◌ c) (join_pieces-pieces delims quotes outside s))
  | inr kept ↦ rw kept (
      push (pieces delims quotes (mode_step quotes m c) s)
      ∙ ap (◌∷◌ c) (join_pieces-pieces delims quotes (mode_step quotes m c) s))
]
  where
    push : (ps : List Piece) → join_pieces (push_piece c ps) ≡ c ∷ join_pieces ps
    push [] = refl
    push (p ∷ ps) = refl

-- The empty pieces hold no text.
pub join_pieces-shown : (ps : List Piece) → join_pieces (shown true ps) ≡ join_pieces ps
join_pieces-shown [] = refl
join_pieces-shown ((true, []) ∷ ps) = join_pieces-shown ps
join_pieces-shown ((false, []) ∷ ps) = join_pieces-shown ps
join_pieces-shown ((true, c ∷ f) ∷ ps) = ap (λ t. (c ∷ f) ++ t) (join_pieces-shown ps)
join_pieces-shown ((false, c ∷ f) ∷ ps) = ap (λ t. (c ∷ f) ++ t) (join_pieces-shown ps)

first_n_all : (s t : Bytes) → first_n (length s) (s ++ t) ≡ s
unfolding first_n
first_n_all [] [] = refl
first_n_all [] (c ∷ t) = refl
first_n_all (c ∷ s) t = ap (◌∷◌ c) (first_n_all s t)

pub first_n-append : (s t : Bytes) → first_n (length (s ++ t) - length t) (s ++ t) ≡ s
first_n-append s t = rw (length-append s t) (rw (cancel (length s) (length t)) (first_n_all s t))
  where
    cancel : (a b : ℕ) → a + b - b ≡ a
    cancel a b = omega arith

module _ (keep : Bool) (delims quotes : Bytes) where
  abbrev pub shown_pieces : Bytes → List Piece
  shown_pieces s = shown keep (pieces delims quotes outside s)

  -- What a scan of `s` shows: nothing, or the first piece shown, in front of the others.
  pub data Shows (s : Bytes) (r : Scan) : Type 0 where
    nothing : r.found ≡ false → shown_pieces s ≡ [] → Shows s r
    piece :
        (f : Bytes)
        → r.found ≡ true
        → r.begin ≡ f ++ r.end
        → shown_pieces s ≡ (r.is_delim, f) ∷ shown_pieces r.end
        → length r.end < length s
        → Shows s r

  pieces_cut :
      (m : Mode) (c : ℕ) (s : Bytes)
      → is_cut delims m c ≡ true
      → pieces delims quotes m (c ∷ s)
        ≡ (false, []) ∷ (true, c ∷ []) ∷ pieces delims quotes outside s
  unfolding pieces
  pieces_cut m c s h = rw h

  pieces_push :
      (m : Mode) (c : ℕ) (s : Bytes)
      → is_cut delims m c ≡ false
      → pieces delims quotes m (c ∷ s)
        ≡ push_piece c (pieces delims quotes (mode_step quotes m c) s)
  unfolding pieces
  pieces_push m c s h = rw h

  -- What the second loop takes is the first piece, and what is shown behind it is ahead of it.
  full_take-pieces :
      (st : AdvanceState) (s : Bytes)
      → (st.in_quote ≡ false → st.in_escape ≡ false)
      → (tail : List Piece) × (pieces delims quotes (mode_of st) s
          ≡ (false, (full_take delims quotes st s).0) ∷ tail)
        × (shown keep tail ≡ shown_pieces (full_take delims quotes st s).1)
        × ((full_take delims quotes st s).0 ++ (full_take delims quotes st s).1 ≡ s)
  full_take-pieces st [] inv = (
    [],
    unfold pieces full_take in refl,
    unfold pieces full_take in refl,
    unfold full_take in refl,
  )
  full_take-pieces st (c ∷ s) inv =
      let (going, mode, inv') = advance_one-mode delims quotes st c inv in
      let st' = (advance_one delims quotes st c).1 in
      let (tail, first, same, whole) = full_take-pieces st' s inv' in
      elim (Bool-cases (advance_one delims quotes st c).0) [
        | inl h ↦
            let kept : is_cut delims (mode_of st) c ≡ false = ground arith in
            let push : pieces delims quotes (mode_step quotes (mode_of st) c) s
                ≡ (false, (full_take delims quotes st' s).0) ∷ tail =
              rw (← mode h) first in
            rw (full_take_go delims quotes st c s h)
              (tail, pieces_push (mode_of st) c s kept ∙ rw push, same, ap (◌∷◌ c) whole)
        | inr h ↦
            let cut : is_cut delims (mode_of st) c ≡ true = ground arith in
            let out : mode_of st ≡ outside = is_cut-outside delims quotes (mode_of st) c cut in
            rw (full_take_stop delims quotes st c s h) (
              (true, c ∷ []) ∷ pieces delims quotes outside s,
              pieces_cut (mode_of st) c s cut,
              rw (pieces_cut outside c s (subst (λ m. is_cut delims m c ≡ true) out cut)),
              refl,
            )
      ]

  full_scan_go :
      (c : ℕ) (s : Bytes)
      → finds delims c ≡ false
      → full_scan keep delims quotes initial (c ∷ s) ≡ record {
        found = true;
        is_delim = false;
        begin = c ∷ s;
        end = (full_take delims quotes (advance_one delims quotes initial c).1 s).1;
      }
  unfolding full_scan advance_one
  full_scan_go c s h = rw h

  full_scan_cut :
      (c : ℕ) (s : Bytes)
      → finds delims c ≡ true
      → full_scan keep delims quotes initial (c ∷ s) ≡ (
          if keep
          then record { found = true; is_delim = true; begin = c ∷ s; end = s }
          else full_scan keep delims quotes initial s)
  unfolding full_scan advance_one
  full_scan_cut c s h = rw h

  shorter_end : (c : ℕ) (a b s : Bytes) → a ++ b ≡ s → length b < length (c ∷ s)
  shorter_end c a b s h = rw (← h) (rw (length-append a b) (omega arith))

  full_scan-kept :
      (c : ℕ) (s : Bytes)
      → finds delims c ≡ false
      → Shows (c ∷ s) (full_scan keep delims quotes initial (c ∷ s))
  full_scan-kept c s h =
      let st' = (advance_one delims quotes initial c).1 in
      let (going, mode, inv') = advance_one-mode delims quotes initial c (λ _. refl) in
      let (tail, first, same, whole) = full_take-pieces st' s inv' in
      let taken = full_take delims quotes st' s in
      let push : pieces delims quotes (mode_step quotes outside c) s ≡ (false, taken.0) ∷ tail =
        rw (← mode (unfold advance_one in rw h)) first in
      let all : shown_pieces (c ∷ s) ≡ (false, c ∷ taken.0) ∷ shown_pieces taken.1 =
        rw (pieces_push outside c s h, push, same) refl in
      rw (full_scan_go c s h) (
        piece (c ∷ taken.0) refl (ap (◌∷◌ c) (sym whole)) all
          (shorter_end c taken.0 taken.1 s whole))

Shows-longer :
    (keep : Bool) (delims quotes : Bytes) (s : Bytes) (t : Bytes) (r : Scan)
    → shown_pieces keep delims quotes t ≡ shown_pieces keep delims quotes s
    → length s ≤ length t
    → Shows keep delims quotes s r
    → Shows keep delims quotes t r
Shows-longer keep delims quotes s t r e le (nothing f h) = nothing f (e ∙ h)
Shows-longer keep delims quotes s t r e le (piece f g b h lt) = piece f g b (e ∙ h) (omega arith)

pub full_scan-Shows :
    (keep : Bool) (delims quotes s : Bytes)
    → Shows keep delims quotes s (full_scan keep delims quotes initial s)
full_scan-Shows keep delims quotes [] = nothing (unfold full_scan in refl) (unfold pieces in refl)
full_scan-Shows true delims quotes (c ∷ s) = elim (Bool-cases (finds delims c)) [
  | inl cut ↦ rw (full_scan_cut true delims quotes c s cut) (
      piece (c ∷ []) refl refl (rw (pieces_cut true delims quotes outside c s cut) refl)
        (omega arith))
  | inr h ↦ full_scan-kept true delims quotes c s h
]
full_scan-Shows false delims quotes (c ∷ s) = elim (Bool-cases (finds delims c)) [
  | inl cut ↦ rw (full_scan_cut false delims quotes c s cut) (
      Shows-longer false delims quotes s (c ∷ s) _
        (rw (pieces_cut false delims quotes outside c s cut) refl) (omega arith)
        (full_scan-Shows false delims quotes s))
  | inr h ↦ full_scan-kept false delims quotes c s h
]
