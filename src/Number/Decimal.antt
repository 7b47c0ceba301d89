-- ===== src/Number/Decimal.antt =====
-- c_src/utils.cc: what `StringToInt` accepts, and what it returns.
use mathlib.Core.List.{cons-ne-nil}
use elixir_sippet.Ascii.{is_digit}
use elixir_sippet.Base.Int.{ℤ, pos, negsuc}
use elixir_sippet.Base.{
  ℕ, zero, suc, ◌+◌, ◌-◌, ◌*◌, ◌≤◌, Bool, true, false, [], ◌∷◌, Bytes, All, ◌≡◌, ◌≢◌, ◌↔◌, ◌⊎◌, inl,
  inr, refl, sym, ap, ◌∙◌, arith, leb, if◌then◌else◌,
}
use elixir_sippet.Number.{
  Sign, positive, negative, limit, digit_step, digits_loop, invoke_sign, invoke, is_space,
  string_to_int,
}
use elixir_sippet.Tokenizer.{span}

-- The code of a digit.
abbrev pub IsDigit : ℕ → Type 0
IsDigit c = (b'0' ≤ c) × (c ≤ b'9')

-- The number that digits spell behind `n`.
abbrev pub decimal : ℕ → Bytes → ℕ
decimal n [] = n
decimal n (c ∷ s) = decimal (n * 10 + (c - b'0')) s

-- -n
abbrev pub minus : ℕ → ℤ
minus zero = pos 0
minus (suc n) = negsuc n

abbrev pub signed : Sign → ℕ → ℤ
signed positive n = pos n
signed negative n = minus n

-- The greatest magnitude of a sign.
abbrev pub bound : Sign → ℕ
bound positive = 2147483647
bound negative = 2147483648

-- One or more digits whose number fits the sign.
abbrev IsNumeral : Sign → Bytes → ℤ → Type 0
IsNumeral sign s z =
    (s ≢ []) × All IsDigit s × (decimal 0 s ≤ bound sign) × (z ≡ signed sign (decimal 0 s))

pub digit_step_lem :
    (sign : Sign) (n c : ℕ)
    → n ≤ bound sign
    → digit_step sign false (signed sign n) c ≡ (
        if is_digit c
        then (if leb (n * 10 + (c - b'0')) (bound sign)
            then (true, signed sign (n * 10 + (c - b'0')))
            else (false, limit sign))
        else (false, signed sign n))
unfolding digit_step
digit_step_lem positive n c h = ground arith
digit_step_lem negative zero c h = ground arith
digit_step_lem negative (suc n) c h = ground arith

first_step_lem :
    (sign : Sign) (c : ℕ)
    → digit_step sign true (pos 0) c
      ≡ (if is_digit c then (true, signed sign (c - b'0')) else (false, pos 0))
unfolding digit_step
first_step_lem positive c = ground arith
first_step_lem negative c = ground arith

pub digits_loop_step :
    (sign : Sign) (first : Bool) (out : ℤ) (c : ℕ) (s : Bytes)
    → digits_loop sign first out (c ∷ s) ≡ (
        if (digit_step sign first out c).0
        then digits_loop sign false (digit_step sign first out c).1 s
        else (false, (digit_step sign first out c).1))
unfolding digits_loop
digits_loop_step sign first out c s = refl

le-value : (s : Bytes) (n : ℕ) → n ≤ decimal n s
le-value [] n = omega arith
le-value (c ∷ s) n = omega (arith, le-value s (n * 10 + (c - b'0')))

digits_loop_sound :
    (sign : Sign) (s : Bytes) (n : ℕ) (z : ℤ)
    → n ≤ bound sign
    → digits_loop sign false (signed sign n) s ≡ (true, z)
    → All IsDigit s × (z ≡ signed sign (decimal n s)) × (decimal n s ≤ bound sign)
digits_loop_sound sign [] n z le h =
    unfold digits_loop in (tt, ap (λ (r : Bool × ℤ). r.1) (sym h), le)
digits_loop_sound sign (c ∷ s) n z le h =
    let m = n * 10 + (c - b'0') in
    ground (
      arith,
      digits_loop_step sign false (signed sign n) c s,
      digit_step_lem sign n c le,
      digits_loop_sound sign s m z,
    )

digits_loop_complete :
    (sign : Sign) (s : Bytes) (n : ℕ)
    → All IsDigit s
    → decimal n s ≤ bound sign
    → digits_loop sign false (signed sign n) s ≡ (true, signed sign (decimal n s))
digits_loop_complete sign [] n d le = unfold digits_loop in refl
digits_loop_complete sign (c ∷ s) n (d, ds) le =
    let m = n * 10 + (c - b'0') in
    ground (
      arith,
      digits_loop_step sign false (signed sign n) c s,
      le-value s m,
      digit_step_lem sign n c,
      digits_loop_complete sign s m ds le,
    )

pub first_loop :
    (sign : Sign) (c : ℕ) (s : Bytes)
    → invoke_sign sign (c ∷ s) ≡ (
        if is_digit c
        then digits_loop sign false (signed sign (0 * 10 + (c - b'0'))) s
        else (false, pos 0))
unfolding invoke_sign
first_loop sign c s =
    let same : 0 * 10 + (c - b'0') ≡ c - b'0' = omega arith in
    rw same (ground (arith, digits_loop_step sign true (pos 0) c s, first_step_lem sign c))

bound_min : (sign : Sign) → 9 ≤ bound sign
bound_min positive = omega arith
bound_min negative = omega arith

invoke_sign_iff :
    (sign : Sign) (s : Bytes) (z : ℤ) → (invoke_sign sign s ≡ (true, z)) ↔ IsNumeral sign s z
invoke_sign_iff sign [] z = (λ h. unfold invoke_sign in ground arith, λ h. absurd (h.0 refl))
invoke_sign_iff sign (c ∷ s) z =
    let m = 0 * 10 + (c - b'0') in
    (
      λ h. ground (
        arith,
        first_loop sign c s,
        digits_loop_sound sign s m z,
        bound_min sign,
        cons-ne-nil c s,
      ),
      λ h. ground (arith, first_loop sign c s, digits_loop_complete sign s m h.1.1 h.2),
    )

-- The texts that stand for an `int`: a numeral, or one behind a sign.
pub data IsDecimal : Bytes → ℤ → Type 0 where
  unsigned : {s : Bytes} {z : ℤ} → IsNumeral positive s z → IsDecimal s z
  plus_sign : {c : ℕ} {s : Bytes} {z : ℤ} → c ≡ b'+' → IsNumeral positive s z → IsDecimal (c ∷ s) z
  minus_sign : {c : ℕ} {s : Bytes} {z : ℤ} → c ≡ b'-' → IsNumeral negative s z → IsDecimal (c ∷ s) z

invoke-cases :
    (c : ℕ) (s : Bytes)
    → ((c ≡ b'-') × (invoke (c ∷ s) ≡ invoke_sign negative s))
      ⊎ ((c ≡ b'+') × (invoke (c ∷ s) ≡ invoke_sign positive s))
      ⊎ ((c ≢ b'-') × (c ≢ b'+') × (invoke (c ∷ s) ≡ invoke_sign positive (c ∷ s)))
unfolding invoke
invoke-cases c s = ground arith

invoke_sound : (s : Bytes) (z : ℤ) → invoke s ≡ (true, z) → IsDecimal s z
invoke_sound [] z h = unsigned ((invoke_sign_iff positive [] z).0 (unfold invoke in h))
invoke_sound (c ∷ s) z h = elim (invoke-cases c s) [
  | inl (e, i) ↦ minus_sign e ((invoke_sign_iff negative s z).0 (sym i ∙ h))
  | inr (inl (e, i)) ↦ plus_sign e ((invoke_sign_iff positive s z).0 (sym i ∙ h))
  | inr (inr (_, _, i)) ↦ unsigned ((invoke_sign_iff positive (c ∷ s) z).0 (sym i ∙ h))
]

invoke_complete : {s : Bytes} {z : ℤ} → IsDecimal s z → invoke s ≡ (true, z)
invoke_complete (unsigned {s} {z} n) = invoke_unsigned s z n
  where
    invoke_unsigned : (s : Bytes) (z : ℤ) → IsNumeral positive s z → invoke s ≡ (true, z)
    invoke_unsigned [] z n = absurd (n.0 refl)
    invoke_unsigned (c ∷ s) z n =
        ground (arith, invoke-cases c s, (invoke_sign_iff positive (c ∷ s) z).1 n)
invoke_complete (plus_sign {c} {s} {z} e n) =
    ground (arith, invoke-cases c s, (invoke_sign_iff positive s z).1 n)
invoke_complete (minus_sign {c} {s} {z} e n) =
    ground (arith, invoke-cases c s, (invoke_sign_iff negative s z).1 n)

string_to_int_cons :
    (c : ℕ) (s : Bytes)
    → string_to_int (c ∷ s)
      ≡ (if is_space c then (false, (string_to_int (c ∷ s)).1) else invoke (c ∷ s))
unfolding string_to_int span
string_to_int_cons c s = ground arith

IsDecimal-not_space : {c : ℕ} {s : Bytes} {z : ℤ} → IsDecimal (c ∷ s) z → is_space c ≡ false
IsDecimal-not_space (unsigned n) = ground arith
IsDecimal-not_space (plus_sign e n) = ground arith
IsDecimal-not_space (minus_sign e n) = ground arith

-- `StringToInt` returns true exactly for one or more decimal digits, behind a plus or a minus sign
-- or none, whose value fits a 32-bit `int`, and then it writes that value.
pub string_to_int_iff : (s : Bytes) (z : ℤ) → (string_to_int s ≡ (true, z)) ↔ IsDecimal s z
string_to_int_iff [] z = (
  λ h. invoke_sound [] z (unfold string_to_int span in h),
  λ d. unfold string_to_int span in invoke_complete d,
)
string_to_int_iff (c ∷ s) z = (
  λ h. invoke_sound (c ∷ s) z (ground (arith, string_to_int_cons c s)),
  λ d. ground (arith, string_to_int_cons c s, IsDecimal-not_space d, invoke_complete d),
)
