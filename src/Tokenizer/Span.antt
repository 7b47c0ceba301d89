-- ===== src/Tokenizer/Span.antt =====
-- c_src/tokenizer.h: where a scan stops.
use elixir_sippet.Base.{
  ℕ, Bool, true, false, [], ◌∷◌, ◌++◌, ◌≤◌, length, Bytes, All, ◌≡◌, refl, arith,
}
use elixir_sippet.Tokenizer.{span}

-- The first character of a text, if it has one, fails the test.
abbrev pub StopsAt : (ℕ → Bool) → Bytes → Type 0
StopsAt p [] = Unit
StopsAt p (c ∷ s) = p c ≡ false

module _ (p : ℕ → Bool) where
  pub append-span : (s : Bytes) → (span p s).0 ++ (span p s).1 ≡ s
  unfolding span
  append-span [] = refl
  append-span (c ∷ s) = ground (arith, append-span s)

  pub span-All : (s : Bytes) → All (λ c. p c ≡ true) (span p s).0
  unfolding span
  span-All [] = tt
  span-All (c ∷ s) = ground (arith, span-All s)

  pub span-StopsAt : (s : Bytes) → StopsAt p (span p s).1
  unfolding span
  span-StopsAt [] = tt
  span-StopsAt (c ∷ s) = ground (arith, span-StopsAt s)

  -- A text in which all characters pass, in front of one at which the scan stops.
  pub span-append :
      (s rest : Bytes) → All (λ c. p c ≡ true) s → StopsAt p rest → span p (s ++ rest) ≡ (s, rest)
  unfolding span
  span-append [] [] h k = refl
  span-append [] (c ∷ rest) h k = rw k
  span-append (c ∷ s) rest (h, hs) k = ground (arith, span-append s rest hs k)

  length-span : (s : Bytes) → length (span p s).1 ≤ length s
  unfolding span
  length-span [] = omega arith
  length-span (c ∷ s) = ground (arith, length-span s)
