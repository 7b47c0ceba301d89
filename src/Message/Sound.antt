-- ===== src/Message/Sound.antt =====
-- c_src/parser.cc: what `Parse` returns, for every text.
use elixir_sippet.Ascii.{is_digit}
use elixir_sippet.Base.Int.{ℤ, pos, ◌≤ℤ◌}
use elixir_sippet.Base.{
  form_rules, ℕ, true, false, not, Bytes, codes, All, Result, ok, err, ◌>>=◌, Ensures, returns,
  fails, Ensures-chain, Ensures-if, Option-cases, inl, inr, ◌≡◌, subst, arith, Bool-cases,
  if◌then◌else◌,
}
use elixir_sippet.Format.Forms.Via.{IsVersion, parse_version-IsVersion}
use elixir_sippet.Message.Assemble.{assemble_raw_headers}
use elixir_sippet.Message.WellFormed.{IsWellFormed, parse_headers-IsWellFormed}
use elixir_sippet.Message.{
  Message, ok_message, error_tuple, bare_atom, Headers, parse_start_line, parse_input, parse,
  skip_line_break,
}
use elixir_sippet.Number.Decimal.{IsDecimal, unsigned, plus_sign, minus_sign, string_to_int_iff}
use elixir_sippet.Number.{string_to_int}
use elixir_sippet.StartLine.{
  StartLine, status_line, request_line, is_blank, status_code, parse_status_line,
  parse_request_line, parse_version, find_line_end, is_status_line,
}
use elixir_sippet.Tokenizer.Span.{span-All}
use elixir_sippet.Tokenizer.{span}
use elixir_sippet.Trim.{trim_left}
use elixir_sippet.Value.{Name, Runtime}

-- A version of two digits, and a status code from 0 to the greatest `int`.
abbrev pub IsStartLine : StartLine → Type 0
IsStartLine (status_line version code reason_phrase) =
    IsVersion version × (pos 0 ≤ℤ code) × (code ≤ℤ pos 2147483647)
IsStartLine (request_line method uri version) = IsVersion version

digits_range :
    {s : Bytes} {z : ℤ}
    → All (λ c. is_digit c ≡ true) s
    → IsDecimal s z
    → (pos 0 ≤ℤ z) × (z ≤ℤ pos 2147483647)
digits_range h (unsigned (ne, d, le, e)) = rw e (omega arith)
digits_range h (plus_sign e n) = absurd (ground arith)
digits_range h (minus_sign e n) = absurd (ground arith)

string_to_int_digits :
    (s : Bytes)
    → All (λ c. is_digit c ≡ true) s
    → not (string_to_int s).0 ≡ false
    → (pos 0 ≤ℤ (string_to_int s).1) × ((string_to_int s).1 ≤ℤ pos 2147483647)
string_to_int_digits s h e =
    digits_range h ((string_to_int_iff s (string_to_int s).1).0 (ground arith))

checked_code :
    (version : ℕ × ℕ) (code reason : Bytes)
    → IsVersion version
    → All (λ c. is_digit c ≡ true) code
    → Ensures IsStartLine (
        if not (string_to_int code).0
        then err (codes "invalid_status_code")
        else ok (status_line version (string_to_int code).1 reason))
checked_code version code reason v h = elim (Bool-cases (not (string_to_int code).0)) [
  | inl invalid ↦ rw invalid fails
  | inr valid ↦
      let (low, high) = string_to_int_digits code h valid in rw valid (returns (v, low, high))
]

status_code-IsStartLine :
    (version : ℕ × ℕ) (p : Bytes) → IsVersion version → Ensures IsStartLine (status_code version p)
unfolding status_code
status_code-IsStartLine version p v =
    let step = λ (reason : Bytes).
      checked_code version (span is_digit (trim_left is_blank p)).0 reason v
        (span-All is_digit (trim_left is_blank p)) in
    search (form_rules, step) depth 9

request_line-IsVersion :
    (method : Name) (uri s : Bytes)
    → Ensures IsStartLine (parse_version s >>= λ version. ok (request_line method uri version))
request_line-IsVersion method uri s =
    Ensures-chain (λ version. ok (request_line method uri version)) (parse_version-IsVersion s)
      λ version v. returns v

request_line-IsStartLine :
    (vm : Runtime) (line : Bytes) → Ensures IsStartLine (parse_request_line vm line)
unfolding parse_request_line
request_line-IsStartLine vm line = search (form_rules, request_line-IsVersion) depth 9

parse_start_line-IsStartLine :
    (vm : Runtime) (line : Bytes) → Ensures IsStartLine (parse_start_line vm line)
unfolding parse_start_line parse_status_line
parse_start_line-IsStartLine vm line =
    Ensures-if (is_status_line line) (parse_status_line line) (parse_request_line vm line)
      (λ _.
        Ensures-chain (λ version. status_code version (span (λ c. not (is_blank c)) line).1)
          (parse_version-IsVersion line) λ version v. status_code-IsStartLine version _ v)
      (λ _. request_line-IsStartLine vm line)

parse_input-ok :
    (vm : Runtime) (input : Bytes) (m : Message)
    → parse_input vm input ≡ ok_message m
    → IsStartLine m.start_line × IsWellFormed m.headers
unfolding parse_input
parse_input-ok vm input m h =
    parts _ _ (parse_start_line-IsStartLine vm (find_line_end input).0)
      (parse_headers-IsWellFormed vm (skip_line_break (find_line_end input).1)) h
  where
    parts :
        (start : Result StartLine) (headers : Result Headers)
        → Ensures IsStartLine start
        → Ensures IsWellFormed headers
        → elim start [
          | err reason ↦ bare_atom reason
          | ok start_line ↦ elim headers [
            | err reason ↦ error_tuple reason
            | ok headers ↦ ok_message (record { start_line = start_line; headers = headers })
          ]
        ]
          ≡ ok_message m
        → IsStartLine m.start_line × IsWellFormed m.headers
    parts (ok start) (ok headers) (returns s) (returns w) e =
        let same : record { start_line = start; headers = headers } ≡ m = cc in
        subst (λ m. IsStartLine m.start_line × IsWellFormed m.headers) same (s, w)
    parts (ok start) (err reason) s w e = absurd cc
    parts (err reason) headers s w e = absurd cc

-- A message that `Parse` returns has a version of two digits, in a status line a status code from 0
-- to the greatest `int`, and a map of headers in which no name stands twice and each entry is of
-- the form that the table of the headers lists for it.
pub parse_sound :
    (vm : Runtime) (raw_message : Bytes) (m : Message)
    → parse vm raw_message ≡ ok_message m
    → IsStartLine m.start_line × IsWellFormed m.headers
unfolding parse
parse_sound vm raw_message m h = elim (Option-cases (assemble_raw_headers raw_message)) [
  | inl e ↦ absurd (ground arith)
  | inr (input, e) ↦ parse_input-ok vm input m (rw (e, parse) at h)
]
