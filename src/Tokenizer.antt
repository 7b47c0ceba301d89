-- ===== src/Tokenizer.antt =====
-- c_src/tokenizer.h, with the members of c_src/string_piece.h that it calls. A tokenizer is the text
-- from `current_` to `end_`. An operation that moves `current_` returns the text that it moved over,
-- which is the slice between the old and the new iterator, and what is left.
pub mod Span
pub mod Words
use elixir_sippet.Base.{
  ℕ, zero, suc, Bool, true, false, not, ◌||◌, [], ◌∷◌, Bytes, ◌==◌, if◌then◌else◌,
}
use elixir_sippet.Ascii.{sip_lws}

-- `chars.find(c) != npos`
unfoldable pub finds : Bytes → ℕ → Bool
finds [] c = false
finds (x ∷ chars) c = x == c || finds chars c

-- The text up to the first character that fails the test, and the rest.
unfoldable pub span : (ℕ → Bool) → Bytes → Bytes × Bytes
span p [] = ([], [])
span p (c ∷ s) = let (taken, left) = span p s in if p c then (c ∷ taken, left) else ([], c ∷ s)

-- `Skip(chars)`
unfoldable pub skip : Bytes → Bytes → Bytes
unfolding span finds
skip chars s = (span (finds chars) s).1

-- `Skip(SIP_LWS)`
unfoldable pub skip_lws : Bytes → Bytes
unfolding skip
skip_lws = skip sip_lws

-- `SkipNotIn(chars)`
unfoldable pub skip_not_in : Bytes → Bytes → Bytes × Bytes
unfolding span finds
skip_not_in chars = span (λ c. not (finds chars c))

-- `SkipTo(c)`
unfoldable pub skip_to : ℕ → Bytes → Bytes × Bytes
unfolding span
skip_to c = span (λ x. not (c == x))

-- `Skip()`
unfoldable pub skip_one : Bytes → Bytes
skip_one [] = []
skip_one (c ∷ s) = s

-- `Skip(n)`
unfoldable pub skip_n : ℕ → Bytes → Bytes
skip_n zero s = s
skip_n (suc n) [] = []
skip_n (suc n) (c ∷ s) = skip_n n s

-- The first `n` characters.
unfoldable pub first_n : ℕ → Bytes → Bytes
first_n n [] = []
first_n zero (c ∷ s) = []
first_n (suc n) (c ∷ s) = c ∷ first_n n s

-- `EndOfInput()`
abbrev pub end_of_input : Bytes → Bool
end_of_input [] = true
end_of_input (c ∷ s) = false
