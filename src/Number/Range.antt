-- ===== src/Number/Range.antt =====
-- c_src/utils.cc: the range of what `StringToInt` writes.
use elixir_sippet.Ascii.{is_digit}
use elixir_sippet.Base.Int.{ℤ, ◌≤ℤ◌}
use elixir_sippet.Base.{
  ℕ, ◌+◌, ◌-◌, ◌*◌, ◌≤◌, false, [], ◌∷◌, Bytes, arith, leb, Bool-cases, inl, inr,
}
use elixir_sippet.Number.Decimal.{signed, bound, digit_step_lem, digits_loop_step, first_loop}
use elixir_sippet.Number.{
  Sign, positive, negative, int_max, int_min, limit, is_space, digits_loop, invoke_sign, invoke,
  string_to_int,
}
use elixir_sippet.Tokenizer.{span}

abbrev pub IsInt : ℤ → Type 0
IsInt z = (int_min ≤ℤ z) × (z ≤ℤ int_max)

signed-IsInt : (sign : Sign) (n : ℕ) → n ≤ bound sign → IsInt (signed sign n)
signed-IsInt positive n h = omega arith
signed-IsInt negative n h = ground arith

limit-IsInt : (sign : Sign) → IsInt (limit sign)
unfolding limit
limit-IsInt positive = omega arith
limit-IsInt negative = omega arith

digits_loop-IsInt :
    (sign : Sign) (s : Bytes) (n : ℕ)
    → n ≤ bound sign
    → IsInt (digits_loop sign false (signed sign n) s).1
digits_loop-IsInt sign [] n h = unfold digits_loop in signed-IsInt sign n h
digits_loop-IsInt sign (c ∷ s) n h =
    let m = n * 10 + (c - b'0') in
    rw (digits_loop_step sign false (signed sign n) c s, digit_step_lem sign n c h)
      (elim (Bool-cases (is_digit c)) [
        | inl d ↦ elim (Bool-cases (leb m (bound sign))) [
          | inl fits ↦ rw (d, fits) (digits_loop-IsInt sign s m (ground arith))
          | inr over ↦ rw (d, over) (limit-IsInt sign)
        ]
        | inr nd ↦ rw nd (signed-IsInt sign n h)
      ])

invoke_sign-IsInt : (sign : Sign) (s : Bytes) → IsInt (invoke_sign sign s).1
invoke_sign-IsInt sign [] = unfold invoke_sign in omega arith
invoke_sign-IsInt sign (c ∷ s) =
    ground (arith, first_loop sign c s, digits_loop-IsInt sign s (0 * 10 + (c - b'0')))

invoke-IsInt : (s : Bytes) → IsInt (invoke s).1
unfolding invoke
invoke-IsInt [] = invoke_sign-IsInt positive []
invoke-IsInt (c ∷ s) = ground (
  arith,
  invoke_sign-IsInt negative s,
  invoke_sign-IsInt positive s,
  invoke_sign-IsInt positive (c ∷ s),
)

-- Whatever the text, the number that `StringToInt` writes lies between the least and the greatest
-- 32-bit `int`.
pub string_to_int-IsInt : (s : Bytes) → IsInt (string_to_int s).1
unfolding string_to_int
string_to_int-IsInt s = invoke-IsInt (span is_space s).1
