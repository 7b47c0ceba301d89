-- ===== src/StringTokenizer/Fields.antt =====
-- c_src/string_tokenizer.h: what the calls of `GetNext` return in turn. The independent description
-- is one pass over the text that cuts it into fields at the delimiters outside quotes; the tokens are
-- the fields that are not empty.
use elixir_sippet.Base.Yields.{Yields, stop, more, Yields-eq}
use elixir_sippet.Base.{
  ℕ, zero, suc, ◌≤◌, ◌<◌, true, false, not, List, [], ◌∷◌, none, some, Bytes, length, ◌≡◌, ◌∙◌,
  refl, subst, fun_ext, sym, inl, inr, arith, Bool-cases, if◌then◌else◌,
}
use elixir_sippet.StringTokenizer.Modes.{
  Mode, outside, mode_step, is_cut, mode_of, advance_one-mode, is_cut-outside, full_take_go,
  full_take_stop,
}
use elixir_sippet.StringTokenizer.{
  quick_get_next, AdvanceState, initial, advance_one, full_take, full_from, full_get_next,
}
use elixir_sippet.Tokenizer.{finds, span, end_of_input}

-- A character put in front of the first field.
abbrev push_char : ℕ → List Bytes → List Bytes
push_char c [] = (c ∷ []) ∷ []
push_char c (f ∷ fs) = (c ∷ f) ∷ fs

module _ (delims quotes : Bytes) where
  unfoldable pub fields : Mode → Bytes → List Bytes
  fields m [] = [] ∷ []
  fields m (c ∷ s) =
      let cut = is_cut delims m c in
      let rest = fields (if cut then outside else mode_step quotes m c) s in
      if cut then [] ∷ rest else push_char c rest

-- The fields that are not empty.
abbrev pub tokens : List Bytes → List Bytes
tokens [] = []
tokens (f ∷ fs) = if end_of_input f then tokens fs else f ∷ tokens fs

module _ (delims quotes : Bytes) where
  fields_cut :
      (m : Mode) (c : ℕ) (s : Bytes)
      → is_cut delims m c ≡ true
      → fields delims quotes m (c ∷ s) ≡ [] ∷ fields delims quotes outside s
  unfolding fields
  fields_cut m c s h = rw h

  fields_push :
      (m : Mode) (c : ℕ) (s : Bytes)
      → is_cut delims m c ≡ false
      → fields delims quotes m (c ∷ s) ≡ push_char c (fields delims quotes (mode_step quotes m c) s)
  unfolding fields
  fields_push m c s h = rw h

  -- What the second loop takes is the first field, and the tokens behind it are those ahead of it.
  full_take-fields :
      (st : AdvanceState) (s : Bytes)
      → (st.in_quote ≡ false → st.in_escape ≡ false)
      → (tail : List Bytes) × (fields delims quotes (mode_of st) s
          ≡ (full_take delims quotes st s).0 ∷ tail)
        × (tokens tail ≡ tokens (fields delims quotes outside (full_take delims quotes st s).1))
        × (length (full_take delims quotes st s).1 ≤ length s)
  full_take-fields st [] inv = (
    [],
    unfold fields full_take in refl,
    unfold fields full_take in refl,
    unfold full_take in omega arith,
  )
  full_take-fields st (c ∷ s) inv =
      let (going, mode, inv') = advance_one-mode delims quotes st c inv in
      let st' = (advance_one delims quotes st c).1 in
      let (tail, first, same, le) = full_take-fields st' s inv' in
      elim (Bool-cases (advance_one delims quotes st c).0) [
        | inl h ↦
            let kept : is_cut delims (mode_of st) c ≡ false = ground arith in
            let push : fields delims quotes (mode_step quotes (mode_of st) c) s
                ≡ (full_take delims quotes st' s).0 ∷ tail =
              rw (← mode h) first in
            rw (full_take_go delims quotes st c s h)
              (tail, fields_push (mode_of st) c s kept ∙ rw push, same, omega arith)
        | inr h ↦
            let cut : is_cut delims (mode_of st) c ≡ true = ground arith in
            let out : mode_of st ≡ outside = is_cut-outside delims quotes (mode_of st) c cut in
            rw (full_take_stop delims quotes st c s h) (
              fields delims quotes outside s,
              fields_cut (mode_of st) c s cut,
              rw (fields_cut outside c s (subst (λ m. is_cut delims m c ≡ true) out cut)),
              omega arith,
            )
      ]

  full_from_go :
      (c : ℕ) (s : Bytes)
      → finds delims c ≡ false
      → full_from delims quotes initial (c ∷ s)
        ≡ some (
          c ∷ (full_take delims quotes (advance_one delims quotes initial c).1 s).0,
          (full_take delims quotes (advance_one delims quotes initial c).1 s).1,
        )
  unfolding full_from advance_one
  full_from_go c s h = rw h

  full_from_skip :
      (c : ℕ) (s : Bytes)
      → finds delims c ≡ true
      → full_from delims quotes initial (c ∷ s) ≡ full_from delims quotes initial s
  unfolding full_from advance_one
  full_from_skip c s h = rw h

  full_from-nil : full_from delims quotes initial [] ≡ none
  unfolding full_from
  full_from-nil = refl

  fields-nil : fields delims quotes outside [] ≡ [] ∷ []
  unfolding fields
  fields-nil = refl

  full_from-Yields :
      (n : ℕ) (s : Bytes)
      → length s < n
      → Yields (full_from delims quotes initial) s (tokens (fields delims quotes outside s))
  full_from-Yields zero s h = absurd (omega arith)
  full_from-Yields (suc n) [] h = rw fields-nil (stop full_from-nil)
  full_from-Yields (suc n) (c ∷ s) h = elim (Bool-cases (finds delims c)) [
    | inl cut ↦
        rw (fields_cut outside c s cut)
          (Yields-eq _ (full_from_skip c s cut) (omega arith) (full_from-Yields n s (omega arith)))
    | inr kept ↦
        let st' = (advance_one delims quotes initial c).1 in
        let (going, mode, inv') = advance_one-mode delims quotes initial c (λ _. refl) in
        let (tail, first, same, le) = full_take-fields st' s inv' in
        let push : fields delims quotes (mode_step quotes outside c) s
            ≡ (full_take delims quotes st' s).0 ∷ tail =
          rw (← mode (unfold advance_one in rw kept)) first in
        let later = full_from-Yields n (full_take delims quotes st' s).1 (omega arith) in
        rw (fields_push outside c s kept, push, same)
          (more (full_from_go c s kept) (omega arith) later)
  ]

-- With quote characters, the calls of `GetNext` return in turn the fields that are not empty.
pub full_get_next-Yields :
    (delims quotes s : Bytes)
    → Yields (full_get_next delims quotes) s (tokens (fields delims quotes outside s))
unfolding full_get_next
full_get_next-Yields delims quotes s =
    full_from-Yields delims quotes (suc (length s)) s (omega arith)

quote_free :
    (delims : Bytes) (c : ℕ)
    → finds delims c ≡ false
    → (advance_one delims [] initial c).1.in_quote ≡ false
unfolding advance_one finds
quote_free delims c h = rw h

quick_take :
    (delims s : Bytes) (st : AdvanceState)
    → st.in_quote ≡ false
    → span (λ x. not (finds delims x)) s ≡ full_take delims [] st s
unfolding span full_take advance_one finds
quick_take delims [] st h = refl
quick_take delims (c ∷ s) st h =
    ground (arith, quick_take delims s (record st { quote_char = c }) h)

-- The quick routine for a tokenizer with no quote characters does what the full one does there.
pub quick-eq-full : (delims s : Bytes) → quick_get_next delims s ≡ full_get_next delims [] s
unfolding quick_get_next full_get_next
quick-eq-full delims [] = sym (full_from-nil delims [])
quick-eq-full delims (c ∷ s) = elim (Bool-cases (finds delims c)) [
  | inl cut ↦ rw cut (quick-eq-full delims s)
  | inr kept ↦ rw (kept, quick_take delims s (record initial { quote_char = c }) refl)
]

-- Without quote characters, the calls of `GetNext` return in turn the fields between delimiters
-- that are not empty.
pub quick_get_next-Yields :
    (delims s : Bytes) → Yields (quick_get_next delims) s (tokens (fields delims [] outside s))
quick_get_next-Yields delims s =
    rw (fun_ext (quick-eq-full delims)) (full_get_next-Yields delims [] s)
