-- ===== src/Message/Errors.antt =====
-- c_src/parser.cc: the errors of `Parse`.
use elixir_sippet.Base.{
  Bool, true, false, ◌||◌, List, [], ◌∷◌, Bytes, codes, equal, Result, ok, err, ◌>>=◌, ◌≡◌, refl,
  subst, arith, Option-cases, inl, inr, if◌then◌else◌,
}
use elixir_sippet.Message.Assemble.Output.{BareReturn, assemble_raw_headers-none}
use elixir_sippet.Message.Assemble.{assemble_raw_headers}
use elixir_sippet.Message.{error_tuple, bare_atom, parse_start_line, parse_input, parse}
use elixir_sippet.StartLine.{
  status_code, parse_status_line, parse_request_line, parse_version, version_number, find_line_end,
}
use elixir_sippet.Value.{Runtime}

-- The errors of a version, a status line and a request line.
abbrev pub start_line_errors : List Bytes
start_line_errors =
    codes "missing_version_spec"
    ∷ codes "missing_version"
    ∷ codes "malformed_version"
    ∷ codes "malformed_version_number"
    ∷ codes "missing_status_code"
    ∷ codes "empty_status_code"
    ∷ codes "invalid_status_code"
    ∷ codes "missing_method"
    ∷ codes "missing_uri"
    ∷ []

abbrev pub is_among : Bytes → List Bytes → Bool
is_among s [] = false
is_among s (t ∷ ts) = equal s t || is_among s ts

-- A value, or an error of the list.
data Listed {ℓ} {A : Type ℓ} : Result A → Type ℓ where
  value : {a : A} → Listed (ok a)
  error : {reason : Bytes} → is_among reason start_line_errors ≡ true → Listed (err reason)

Listed-if {ℓ} :
    {A : Type ℓ} (b : Bool) (x y : Result A) → Listed x → Listed y → Listed (if b then x else y)
Listed-if true x y h k = h
Listed-if false x y h k = k

Listed-bind {ℓ κ} :
    {A : Type ℓ} {B : Type κ} (m : Result A) (f : A → Result B)
    → Listed m
    → ((a : A) → Listed (f a))
    → Listed (m >>= f)
Listed-bind (ok a) f h k = k a
Listed-bind (err reason) f (error h) k = error h

ruleset listed_rules = (Listed-if, Listed-bind, value, error)

parse_version-Listed : (s : Bytes) → Listed (parse_version s)
unfolding parse_version version_number
parse_version-Listed s = search listed_rules depth 9

parse_start_line-Listed : (vm : Runtime) (line : Bytes) → Listed (parse_start_line vm line)
unfolding parse_start_line parse_status_line parse_request_line status_code
parse_start_line-Listed vm line = search (listed_rules, parse_version-Listed) depth 9

reason_of {ℓ} :
    {A : Type ℓ} {r : Result A} {reason : Bytes}
    → Listed r
    → r ≡ err reason
    → is_among reason start_line_errors ≡ true
reason_of {reason} value e = cc
reason_of {reason} (error {reason = other} h) e =
    let same : other ≡ reason = cc in subst (λ x. is_among x start_line_errors ≡ true) same h

parse_input-atom :
    (vm : Runtime) (input reason : Bytes)
    → parse_input vm input ≡ bare_atom reason
    → parse_start_line vm (find_line_end input).0 ≡ err reason
unfolding parse_input
parse_input-atom vm input reason h = ground arith

-- An atom alone that `Parse` returns is one of the nine errors of the first line.
pub parse-bare_atom :
    (vm : Runtime) (raw_message reason : Bytes)
    → parse vm raw_message ≡ bare_atom reason
    → is_among reason start_line_errors ≡ true
unfolding parse
parse-bare_atom vm raw_message reason h = elim (Option-cases (assemble_raw_headers raw_message)) [
  | inl e ↦ absurd (ground (arith, rw (e, parse) at h))
  | inr (input, e) ↦
      reason_of (parse_start_line-Listed vm (find_line_end input).0)
        (parse_input-atom vm input reason (rw (e, parse) at h))
]

-- For a text with a carriage return at the end, or in front of another character than a line feed,
-- `Parse` returns the error of an invalid line break, whatever else the text holds.
parse-BareReturn :
    (vm : Runtime) (raw_message : Bytes)
    → BareReturn raw_message
    → parse vm raw_message ≡ error_tuple (codes "invalid_line_break")
unfolding parse
parse-BareReturn vm raw_message h = rw (parse, (assemble_raw_headers-none raw_message).1 h) refl
