-- ===== src/StartLine/RoundTrip.antt =====
-- c_src/parser.cc: start lines written from their parts.
use mathlib.Core.List.{cons-ne-nil}
use elixir_sippet.Ascii.{is_digit, sip_lws, lower_case_equals_ascii}
use elixir_sippet.Base.Int.{pos}
use elixir_sippet.Base.{
  ℕ, ◌+◌, ◌-◌, ◌≤◌, true, false, not, [], ◌∷◌, ◌++◌, Bytes, codes, All, ok, ◌≡◌, refl, sym, ap, ◌∙◌,
  arith, append-nil, ◌==◌,
}
use elixir_sippet.Number.Decimal.{IsDigit, decimal, unsigned, string_to_int_iff}
use elixir_sippet.StartLine.{
  is_blank, is_line_blank, has_prefix, version_number, parse_version, status_line, request_line,
  status_code, parse_status_line, parse_request_line, existing_atom_or_string,
}
use elixir_sippet.Tokenizer.Span.{span-append}
use elixir_sippet.Tokenizer.{first_n, span, finds, skip_lws, skip, skip_to, skip_one, skip_n}
use elixir_sippet.Trim.Trimmed.{EndsOutside, trim_right-fixes, trim_left-fixes}
use elixir_sippet.Trim.{trim_left}
use elixir_sippet.Value.{Runtime}

-- The version of major and minor digit `a` and `b`.
abbrev pub version_text : ℕ → ℕ → Bytes
version_text a b = codes "SIP/" ++ (b'0' + a) ∷ b'.' ∷ (b'0' + b) ∷ []

skip_lws_stop : (c : ℕ) (s : Bytes) → finds sip_lws c ≡ false → skip_lws (c ∷ s) ≡ c ∷ s
unfolding skip_lws skip span
skip_lws_stop c s h = ground arith

skip_to_dot : (d : ℕ) (s : Bytes) → (b'.' == d) ≡ false → (skip_to b'.' (d ∷ b'.' ∷ s)).1 ≡ b'.' ∷ s
unfolding skip_to span
skip_to_dot d s h = rw h

digit_plain :
    (a : ℕ)
    → a ≤ 9
    → (finds sip_lws (b'0' + a) ≡ false)
      × ((b'.' == b'0' + a) ≡ false)
      × (is_digit (b'0' + a) ≡ true)
      × (b'0' + a - b'0' ≡ a)
unfolding finds
digit_plain a h = ground arith

version_number_text :
    (a b : ℕ) (rest : Bytes)
    → a ≤ 9
    → b ≤ 9
    → version_number (b'/' ∷ (b'0' + a) ∷ b'.' ∷ (b'0' + b) ∷ rest) ≡ ok (a, b)
unfolding version_number skip_one
version_number_text a b rest h k =
    let (plain, no_dot, digit, back) = digit_plain a h in
    let (plain', _, digit', back') = digit_plain b k in
    rw (
      skip_lws_stop (b'0' + a) (b'.' ∷ (b'0' + b) ∷ rest) plain,
      skip_to_dot (b'0' + a) ((b'0' + b) ∷ rest) no_dot,
      skip_lws_stop (b'0' + b) rest plain',
      digit,
      digit',
      back,
      back',
    )

-- A version of two single digits is read back, whatever follows it.
pub parse_version-version_text :
    (a b : ℕ) (rest : Bytes) → a ≤ 9 → b ≤ 9 → parse_version (version_text a b ++ rest) ≡ ok (a, b)
parse_version-version_text a b rest h k = prefix ∙ version_number_text a b rest h k
  where
    prefix :
        parse_version (version_text a b ++ rest)
        ≡ version_number (b'/' ∷ (b'0' + a) ∷ b'.' ∷ (b'0' + b) ∷ rest)
    prefix =
        unfold parse_version has_prefix first_n lower_case_equals_ascii skip_n skip_lws skip span
          finds in
        refl

-- Text without a space.
abbrev NoBlank : Bytes → Type 0
NoBlank s = All (λ c. (not (is_blank c)) ≡ true) s

trim_left-blank :
    (d : ℕ) (s : Bytes) → not (is_blank d) ≡ true → trim_left is_blank (b' ' ∷ d ∷ s) ≡ d ∷ s
trim_left-blank d s h = unfold trim_left span in ground arith

version_text-NoBlank : (a b : ℕ) → a ≤ 9 → b ≤ 9 → NoBlank (version_text a b)
version_text-NoBlank a b h k = ground arith

is_digit-All : (s : Bytes) → All IsDigit s → All (λ c. is_digit c ≡ true) s
is_digit-All [] h = tt
is_digit-All (c ∷ s) (h, hs) = (ground arith, is_digit-All s hs)

code_plain :
    (c : ℕ) (s : Bytes)
    → All IsDigit (c ∷ s)
    → All (λ c. is_digit c ≡ true) (c ∷ s) × (not (is_blank c) ≡ true)
code_plain c s h = (is_digit-All (c ∷ s) h, ground arith)

-- A request line whose method and URI are not empty and hold no space, with its parts one space
-- apart and single digits for the version, is read back; the method does not begin with a blank or
-- a line break, and is taken as `existing_atom_or_string` takes it.
pub parse_request_line-parts :
    (vm : Runtime) (c : ℕ) (method : Bytes) (d : ℕ) (uri : Bytes) (a b : ℕ)
    → is_line_blank c ≡ false
    → NoBlank (c ∷ method)
    → NoBlank (d ∷ uri)
    → a ≤ 9
    → b ≤ 9
    → parse_request_line vm ((c ∷ method) ++ b' ' ∷ ((d ∷ uri) ++ b' ' ∷ version_text a b))
      ≡ ok (request_line (existing_atom_or_string vm (c ∷ method)) (d ∷ uri) (a, b))
parse_request_line-parts vm c method d uri a b nc m u ha hb =
    let blank = λ (x : ℕ). not (is_blank x) in
    let version = version_text a b in
    let first = span-append blank (c ∷ method) (b' ' ∷ ((d ∷ uri) ++ b' ' ∷ version)) m refl in
    let second = span-append blank (d ∷ uri) (b' ' ∷ version) u refl in
    let third : parse_version version ≡ ok (a, b) =
      rw (sym (append-nil version)) (parse_version-version_text a b [] ha hb) in
    unfold parse_request_line in
    rw
      (
        trim_left-fixes is_line_blank ((c ∷ method) ++ b' ' ∷ ((d ∷ uri) ++ b' ' ∷ version)) nc,
        first,
        trim_left-blank d (uri ++ b' ' ∷ version) u.0,
        second,
        trim_left-blank b'S' (codes "IP/" ++ (b'0' + a) ∷ b'.' ∷ (b'0' + b) ∷ []) refl,
      )
      (rw third refl)

-- A status line with its parts one space apart is read back: single digits for the version, the
-- digits of the code, which fits an `int`, as their number, and the reason phrase, which is not
-- empty and neither starts nor ends with a space.
pub parse_status_line-parts :
    (a b c : ℕ) (digits : Bytes) (d : ℕ) (reason : Bytes)
    → a ≤ 9
    → b ≤ 9
    → All IsDigit (c ∷ digits)
    → decimal 0 (c ∷ digits) ≤ 2147483647
    → is_blank d ≡ false
    → EndsOutside is_blank (d ∷ reason)
    → parse_status_line (version_text a b ++ b' ' ∷ ((c ∷ digits) ++ b' ' ∷ d ∷ reason))
      ≡ ok (status_line (a, b) (pos (decimal 0 (c ∷ digits))) (d ∷ reason))
parse_status_line-parts a b c digits d reason ha hb hds le hd e =
    let blank = λ (x : ℕ). not (is_blank x) in
    let code = c ∷ digits in
    let tail = code ++ b' ' ∷ d ∷ reason in
    let (digit, plain) = code_plain c digits hds in
    let first =
      span-append blank (version_text a b) (b' ' ∷ tail) (version_text-NoBlank a b ha hb) refl in
    let second = span-append is_digit code (b' ' ∷ d ∷ reason) digit refl in
    let number =
      (string_to_int_iff code (pos (decimal 0 code))).1
        (unsigned (cons-ne-nil c digits, hds, le, refl)) in
    unfold parse_status_line status_code in
    rw
      (
        parse_version-version_text a b (b' ' ∷ tail) ha hb,
        first,
        trim_left-blank c (digits ++ b' ' ∷ d ∷ reason) plain,
        second,
        number,
        trim_left-blank d reason (ap not hd),
        trim_right-fixes is_blank (d ∷ reason) e,
      )
      refl
