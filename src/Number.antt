-- ===== src/Number.antt =====
-- c_src/utils.cc: `StringToInt`, the base 10 instance of `IteratorRangeToNumber` for `int`. The
-- result is the returned Boolean and what is written to `*output`, also where it is false.
pub mod Decimal
pub mod Range
use elixir_sippet.Base.Int.{ℤ, pos, negsuc, ◌+ℤ◌, ◌-ℤ◌, ◌*ℤ◌, ltb_ℤ, eqb_ℤ}
use elixir_sippet.Base.{
  ℕ, ◌-◌, Bool, true, false, not, ◌&&◌, ◌||◌, [], ◌∷◌, Option, none, some, Bytes, ltb, leb, ◌==◌,
  if◌then◌else◌,
}
use elixir_sippet.Ascii.{is_digit}
use elixir_sippet.Tokenizer.{span, end_of_input}

abbrev pub int_max : ℤ
int_max = pos 2147483647

abbrev pub int_min : ℤ
int_min = negsuc 2147483647

-- `isspace`
abbrev pub is_space : ℕ → Bool
is_space c = c == b' ' || (leb 9 c && leb c 13)

unfoldable pub char_to_digit : ℕ → Option ℕ
char_to_digit c = if is_digit c then some (c - b'0') else none

-- `class Positive`, `class Negative`
pub data Sign : Type 0 where
  positive negative : Sign

-- `CheckBounds`: `max() / 10` and `max() % 10` are 214748364 and 7, `min() / 10` and `min() % 10`
-- are -214748364 and -8.
unfoldable pub check_bounds : Sign → ℤ → ℕ → Bool
check_bounds positive output digit =
    not (ltb_ℤ (pos 214748364) output || (eqb_ℤ output (pos 214748364) && ltb 7 digit))
check_bounds negative output digit =
    not (ltb_ℤ output (negsuc 214748363) || (eqb_ℤ output (negsuc 214748363) && ltb 8 digit))

-- What `CheckBounds` writes where it fails.
unfoldable pub limit : Sign → ℤ
limit positive = int_max
limit negative = int_min

unfoldable pub increment : Sign → ℕ → ℤ → ℤ
unfolding ◌+ℤ◌ ◌-ℤ◌
increment positive digit output = output +ℤ pos digit
increment negative digit output = output -ℤ pos digit

-- One round of the loop of `Base::Invoke`; `first` is `current == begin`. The Boolean tells whether
-- the loop goes on.
unfoldable pub digit_step : Sign → Bool → ℤ → ℕ → Bool × ℤ
unfolding check_bounds limit increment char_to_digit ◌*ℤ◌
digit_step sign first output c = elim (char_to_digit c) [
  | none ↦ (false, output)
  | some digit ↦
      if first
      then (true, increment sign digit output)
      else if check_bounds sign output digit
      then (true, increment sign digit (output *ℤ pos 10))
      else (false, limit sign)
]

unfoldable pub digits_loop : Sign → Bool → ℤ → Bytes → Bool × ℤ
unfolding digit_step
digits_loop sign first output [] = (true, output)
digits_loop sign first output (c ∷ s) =
    let (more, output') = digit_step sign first output c in
    let rest = digits_loop sign false output' s in if more then rest else (false, output')

-- `Base::Invoke`
unfoldable pub invoke_sign : Sign → Bytes → Bool × ℤ
unfolding digits_loop
invoke_sign sign [] = (false, pos 0)
invoke_sign sign (c ∷ s) = digits_loop sign true (pos 0) (c ∷ s)

-- `IteratorRangeToNumber::Invoke`, behind the whitespace.
unfoldable pub invoke : Bytes → Bool × ℤ
unfolding invoke_sign
invoke [] = invoke_sign positive []
invoke (c ∷ s) =
    if c == b'-'
    then invoke_sign negative s
    else if c == b'+'
    then invoke_sign positive s
    else invoke_sign positive (c ∷ s)

unfoldable pub string_to_int : Bytes → Bool × ℤ
unfolding invoke span
string_to_int s =
    let (blank, text) = span is_space s in
    let (valid, output) = invoke text in (end_of_input blank && valid, output)
