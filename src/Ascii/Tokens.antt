-- ===== src/Ascii/Tokens.antt =====
-- c_src/utils.cc: `IsToken`, character by character.
use elixir_sippet.Ascii.{is_token_char, all_token_chars, is_token}
use elixir_sippet.Base.{Bool, true, ◌&&◌, [], ◌∷◌, Bytes, All, ◌≡◌, arith}

both_true : (a b : Bool) → (a && b) ≡ true → (a ≡ true) × (b ≡ true)
both_true a b h = ground arith

all_token_chars-All : (s : Bytes) → all_token_chars s ≡ true → All (λ c. is_token_char c ≡ true) s
all_token_chars-All [] h = tt
all_token_chars-All (c ∷ s) h =
    let (first, rest) =
      both_true (is_token_char c) (all_token_chars s) (unfold all_token_chars in h) in
    (first, all_token_chars-All s rest)

pub is_token-All : (s : Bytes) → is_token s ≡ true → All (λ c. is_token_char c ≡ true) s
is_token-All [] h = tt
is_token-All (c ∷ s) h = all_token_chars-All (c ∷ s) (unfold is_token in h)
