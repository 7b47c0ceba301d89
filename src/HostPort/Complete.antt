-- ===== src/HostPort/Complete.antt =====
-- c_src/utils.cc: the texts that `ParseHostAndPort` has to accept.
use elixir_sippet.Base.Int.{ℤ, pos}
use elixir_sippet.Base.{
  ℕ, ◌≤◌, true, false, not, [], ◌∷◌, ◌++◌, none, some, ap, Bytes, All, ◌≡◌, ◌≢◌, refl, ◌∙◌, arith,
  ◌==◌, if◌then◌else◌,
}
use elixir_sippet.HostPort.Sound.{IsPort, absent, empty, number, All-all_digits}
use elixir_sippet.HostPort.{
  port_number, all_digits, parse_port, parse_bracketed, parse_plain, parse_host_and_port,
}
use elixir_sippet.Number.Decimal.{IsDigit, decimal, unsigned, string_to_int_iff}
use elixir_sippet.Number.{string_to_int}
use elixir_sippet.Tokenizer.Span.{span-append, StopsAt}
use elixir_sippet.Tokenizer.{span, skip_one, end_of_input}

port_number_valid :
    (c : ℕ) (s : Bytes) (z : ℤ) → string_to_int (c ∷ s) ≡ (true, z) → port_number (c ∷ s) ≡ some z
unfolding port_number
port_number_valid c s z h = ground arith

port_number_complete :
    (s : Bytes)
    → s ≢ []
    → All IsDigit s
    → decimal 0 s ≤ 2147483647
    → port_number s ≡ some (pos (decimal 0 s))
port_number_complete [] ne d le = absurd (ne refl)
port_number_complete (c ∷ s) ne d le =
    port_number_valid c s _ ((string_to_int_iff (c ∷ s) _).1 (unsigned (ne, d, le, refl)))

parse_port_complete :
    {rest : Bytes} {p : ℤ} (host : Bytes) → IsPort rest p → parse_port host rest ≡ some (host, p)
unfolding parse_port
parse_port_complete host absent = refl
parse_port_complete host empty = unfold port_number all_digits in refl
parse_port_complete host (number {ds} ne d le) =
    rw (All-all_digits ds d, port_number_complete ds ne d le)

IsPort-StopsAt : {rest : Bytes} {p : ℤ} → IsPort rest p → StopsAt (λ c. not (c == b':')) rest
IsPort-StopsAt absent = tt
IsPort-StopsAt empty = refl
IsPort-StopsAt (number ne d le) = refl

-- A host without colons, which does not begin with a bracket, and its port are read back.
pub parse_host_and_port_plain :
    (c : ℕ) (host rest : Bytes) (p : ℤ)
    → c ≢ b'['
    → All (λ x. (not (x == b':')) ≡ true) (c ∷ host)
    → IsPort rest p
    → parse_host_and_port ((c ∷ host) ++ rest) ≡ some (c ∷ host, p)
unfolding parse_host_and_port parse_plain
parse_host_and_port_plain c host rest p ne all port =
    let plain : (c == b'[') ≡ false = ground arith in
    rw (plain, span-append (λ x. not (x == b':')) (c ∷ host) rest all (IsPort-StopsAt port))
      (parse_port_complete (c ∷ host) port)

parse_bracketed_lem :
    (s inner rest : Bytes)
    → span (λ x. not (x == b']')) s ≡ (inner, b']' ∷ rest)
    → parse_bracketed s ≡ parse_port (inner ++ b']' ∷ []) rest
parse_bracketed_lem s inner rest h =
    unfold parse_bracketed skip_one in
    ap
      (λ (r : Bytes × Bytes).
        if end_of_input r.1 then none else parse_port (r.0 ++ b']' ∷ []) (skip_one r.1))
      h

-- A host in brackets keeps its brackets, whatever stands between them but a closing bracket.
pub parse_host_and_port_bracketed :
    (inner rest : Bytes) (p : ℤ)
    → All (λ x. (not (x == b']')) ≡ true) inner
    → IsPort rest p
    → parse_host_and_port (b'[' ∷ (inner ++ b']' ∷ rest)) ≡ some (b'[' ∷ (inner ++ b']' ∷ []), p)
unfolding parse_host_and_port
parse_host_and_port_bracketed inner rest p all port =
    let test = λ (x : ℕ). not (x == b']') in
    parse_bracketed_lem (b'[' ∷ (inner ++ b']' ∷ rest)) (b'[' ∷ inner) rest
      (span-append test (b'[' ∷ inner) (b']' ∷ rest) (refl, all) refl)
    ∙ parse_port_complete (b'[' ∷ (inner ++ b']' ∷ [])) port
