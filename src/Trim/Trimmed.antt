-- ===== src/Trim/Trimmed.antt =====
-- c_src/utils.cc: what `TrimLWS` takes away.
use elixir_sippet.Ascii.{is_lws}
use elixir_sippet.Base.{
  ℕ, Bool, true, false, [], ◌∷◌, ◌++◌, Bytes, All, ◌≡◌, refl, sym, ap, ◌∙◌, Bool-cases, inl, inr,
  if◌then◌else◌, ◌&&◌,
}
use elixir_sippet.Tokenizer.Span.{append-span, span-All, span-StopsAt, StopsAt}
use elixir_sippet.Tokenizer.{span, end_of_input}
use elixir_sippet.Trim.{trim_left, trim_right, trim_lws}

-- The last character of a text, if it has one, fails the test.
abbrev pub EndsOutside : (ℕ → Bool) → Bytes → Type 0
EndsOutside p [] = Unit
EndsOutside p (c ∷ []) = p c ≡ false
EndsOutside p (c ∷ d ∷ s) = EndsOutside p (d ∷ s)

module _ (p : ℕ → Bool) where
  -- `s` is `kept` with a tail of characters that pass, and `kept` does not end in such a one.
  abbrev TrimsTo : Bytes → Bytes → Type 0
  TrimsTo s kept =
      (post : Bytes) × (s ≡ kept ++ post) × All (λ c. p c ≡ true) post × EndsOutside p kept

  TrimsTo-cons :
      (c : ℕ) (s kept : Bytes)
      → TrimsTo s kept
      → TrimsTo (c ∷ s) (if end_of_input kept && p c then [] else c ∷ kept)
  TrimsTo-cons c s (d ∷ kept) (post, e, all, ends) = (post, ap (◌∷◌ c) e, all, ends)
  TrimsTo-cons c s [] (post, e, all, ends) = elim (Bool-cases (p c)) [
    | inl h ↦ rw h (c ∷ post, ap (◌∷◌ c) e, (h, all), tt)
    | inr h ↦ rw h (post, ap (◌∷◌ c) e, all, h)
  ]

  trim_right-TrimsTo : (s : Bytes) → TrimsTo s (trim_right p s)
  unfolding trim_right
  trim_right-TrimsTo [] = ([], refl, tt, tt)
  trim_right-TrimsTo (c ∷ s) = TrimsTo-cons c s (trim_right p s) (trim_right-TrimsTo s)

  trim_right-StopsAt : (s : Bytes) → StopsAt p s → StopsAt p (trim_right p s)
  unfolding trim_right
  trim_right-StopsAt [] h = tt
  trim_right-StopsAt (c ∷ s) h = elim (Bool-cases (end_of_input (trim_right p s))) [
    | inl e ↦ rw (e, h) h
    | inr e ↦ rw e h
  ]

-- What `TrimLWS` leaves is the text without the blanks and NULs at its two ends: it neither starts
-- nor ends with one, and nothing else is taken away.
trim_lws-trims :
    (s : Bytes)
    → (pre : Bytes) × (post : Bytes) × (s ≡ pre ++ (trim_lws s ++ post))
      × All (λ c. is_lws c ≡ true) pre
      × All (λ c. is_lws c ≡ true) post
      × StopsAt is_lws (trim_lws s)
      × EndsOutside is_lws (trim_lws s)
unfolding trim_lws trim_left
trim_lws-trims s =
    let rest = (span is_lws s).1 in
    let (post, e, all, ends) = trim_right-TrimsTo is_lws rest in
    (
      (span is_lws s).0,
      post,
      sym (append-span is_lws s) ∙ ap (λ (r : Bytes). (span is_lws s).0 ++ r) e,
      span-All is_lws s,
      all,
      trim_right-StopsAt is_lws rest (span-StopsAt is_lws s),
      ends,
    )

pub trim_right-fixes : (p : ℕ → Bool) (s : Bytes) → EndsOutside p s → trim_right p s ≡ s
unfolding trim_right
trim_right-fixes p [] h = refl
trim_right-fixes p (c ∷ []) h = rw h
trim_right-fixes p (c ∷ d ∷ s) h = rw (trim_right-fixes p (d ∷ s) h)

pub trim_left-fixes : (p : ℕ → Bool) (s : Bytes) → StopsAt p s → trim_left p s ≡ s
unfolding trim_left span
trim_left-fixes p [] h = refl
trim_left-fixes p (c ∷ s) h = rw (h, trim_left, span)

-- A text that neither starts nor ends with a blank or a NUL is left as it is.
pub trim_lws-fixes : (s : Bytes) → StopsAt is_lws s → EndsOutside is_lws s → trim_lws s ≡ s
unfolding trim_lws
trim_lws-fixes s h k = rw (trim_left-fixes is_lws s h) (trim_right-fixes is_lws s k)
