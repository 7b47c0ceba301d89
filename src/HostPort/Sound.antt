-- ===== src/HostPort/Sound.antt =====
-- c_src/utils.cc: what `ParseHostAndPort` accepts, and what it returns.
use elixir_sippet.Base.Int.{ℤ, pos, negsuc}
use elixir_sippet.Base.{
  ℕ, ◌≤◌, true, not, [], ◌∷◌, ◌++◌, none, some, Bytes, All, ◌≡◌, ◌≢◌, refl, sym, ap, subst, subst₂,
  ◌∙◌, arith, append_assoc, ◌==◌, if◌then◌else◌, Bool-cases, Option-cases, some_inj, inl, inr, ◌⊎◌,
}
use elixir_sippet.HostPort.{
  all_digits, port_number, parse_port, parse_bracketed, parse_plain, parse_host_and_port,
}
use elixir_sippet.Number.Decimal.{
  IsDigit, decimal, IsDecimal, unsigned, plus_sign, minus_sign, string_to_int_iff,
}
use elixir_sippet.Number.{string_to_int}
use elixir_sippet.Tokenizer.Span.{append-span, span-All, span-StopsAt, StopsAt}
use elixir_sippet.Tokenizer.{span, skip_one, end_of_input}

-- What may stand behind the host, and the port that it stands for.
pub data IsPort : Bytes → ℤ → Type 0 where
  absent : IsPort [] (negsuc 0)
  empty : IsPort (b':' ∷ []) (negsuc 0)
  number :
      {ds : Bytes}
      → ds ≢ []
      → All IsDigit ds
      → decimal 0 ds ≤ 2147483647
      → IsPort (b':' ∷ ds) (pos (decimal 0 ds))

all_digits-All : (s : Bytes) → all_digits s ≡ true → All IsDigit s
unfolding all_digits
all_digits-All [] h = tt
all_digits-All (c ∷ s) h = ground (arith, all_digits-All s)

pub All-all_digits : (s : Bytes) → All IsDigit s → all_digits s ≡ true
unfolding all_digits
All-all_digits [] h = refl
All-all_digits (c ∷ s) (h, hs) = ground (arith, All-all_digits s hs)

digits-IsDecimal :
    {s : Bytes} {z : ℤ}
    → All IsDigit s
    → IsDecimal s z
    → (s ≢ []) × (decimal 0 s ≤ 2147483647) × (z ≡ pos (decimal 0 s))
digits-IsDecimal d (unsigned n) = (n.0, n.2, n.3)
digits-IsDecimal d (plus_sign e n) = absurd (ground arith)
digits-IsDecimal d (minus_sign e n) = absurd (ground arith)

port_number-IsPort :
    (s : Bytes) (p : ℤ) → All IsDigit s → port_number s ≡ some p → IsPort (b':' ∷ s) p
port_number-IsPort [] p d h = unfold port_number in subst (IsPort (b':' ∷ [])) (some_inj h) empty
port_number-IsPort (c ∷ s) p d h = elim (Bool-cases (string_to_int (c ∷ s)).0) [
  | inl valid ↦
      let out = (string_to_int (c ∷ s)).1 in
      let same : out ≡ p = unfold port_number in some_inj (rw valid at h) in
      let (ne, le, e) =
        digits-IsDecimal d ((string_to_int_iff (c ∷ s) out).0 (λ i. (valid i, out))) in
      subst (IsPort (b':' ∷ c ∷ s)) (sym e ∙ same) (number ne d le)
  | inr invalid ↦ absurd (unfold port_number in ground arith)
]

parse_port_sound :
    (host rest h : Bytes) (p : ℤ) → parse_port host rest ≡ some (h, p) → (h ≡ host) × IsPort rest p
parse_port_sound host [] h p e = let (eh, ep) = left_out in (eh, subst (IsPort []) ep absent)
  where
    left_out : (h ≡ host) × (negsuc 0 ≡ p)
    left_out = unfold parse_port in ground arith
parse_port_sound host (c ∷ s) h p e = elim (Option-cases (port_number s)) [
  | inl bad ↦ absurd (unfold parse_port in ground arith)
  | inr (q, good) ↦
      let (colon, d, eh, ep) = accepted q good in
      (
        eh,
        subst₂ IsPort (ap (λ x. x ∷ s) (sym colon)) ep
            (port_number-IsPort s q (all_digits-All s d) good),
      )
]
  where
    accepted :
        (q : ℤ) → port_number s ≡ some q → (c ≡ b':') × (all_digits s ≡ true) × (h ≡ host) × (q ≡ p)
    accepted q good = unfold parse_port in ground arith

-- The host that is read: in brackets, or free of colons.
abbrev pub IsHost : Bytes → Type 0
IsHost host =
    ((inner : Bytes) × (host ≡ inner ++ b']' ∷ []) × (All (λ c. (not (c == b']')) ≡ true) inner))
    ⊎ All (λ c. (not (c == b':')) ≡ true) host

parse_bracketed_sound :
    (s host : Bytes) (p : ℤ)
    → parse_bracketed s ≡ some (host, p)
    → (rest : Bytes) × (s ≡ host ++ rest) × IsHost host × IsPort rest p
unfolding parse_bracketed
parse_bracketed_sound s host p e =
    let test = λ (c : ℕ). not (c == b']') in
    close (span test s).0 (span test s).1 (append-span test s) (span-All test s)
      (span-StopsAt test s) e
  where
    close :
        (inner rest : Bytes)
        → inner ++ rest ≡ s
        → All (λ c. (not (c == b']')) ≡ true) inner
        → StopsAt (λ c. not (c == b']')) rest
        → (if end_of_input rest then none else parse_port (inner ++ b']' ∷ []) (skip_one rest))
          ≡ some (host, p)
        → (rest : Bytes) × (s ≡ host ++ rest) × IsHost host × IsPort rest p
    close inner [] same all stops e = absurd (ground arith)
    close inner (c ∷ rest) same all stops e =
        let closing : c ≡ b']' = ground arith in
        let (eh, port) = parse_port_sound (inner ++ b']' ∷ []) rest host p (unfold skip_one in e) in
        (rest, sym same ∙ rw (closing, eh, append_assoc), inl (inner, eh, all), port)

parse_plain_sound :
    (s host : Bytes) (p : ℤ)
    → parse_plain s ≡ some (host, p)
    → (rest : Bytes) × (s ≡ host ++ rest) × IsHost host × IsPort rest p
unfolding parse_plain
parse_plain_sound s host p e =
    let test = λ (c : ℕ). not (c == b':') in
    let (eh, port) = parse_port_sound (span test s).0 (span test s).1 host p e in
    (
      (span test s).1,
      sym (append-span test s) ∙ ap (λ (h : Bytes). h ++ (span test s).1) (sym eh),
      inr (subst (All (λ c. test c ≡ true)) (sym eh) (span-All test s)),
      port,
    )

-- What `ParseHostAndPort` accepts is a host, and nothing or a colon and the digits of the port,
-- which fits an `int`. The host ends at its bracket or has no colon, so the split is the only one.
-- Without digits the port is -1.
pub parse_host_and_port_sound :
    (s host : Bytes) (p : ℤ)
    → parse_host_and_port s ≡ some (host, p)
    → (rest : Bytes) × (s ≡ host ++ rest) × IsHost host × IsPort rest p
parse_host_and_port_sound [] host p e = absurd (unfold parse_host_and_port in ground arith)
parse_host_and_port_sound (c ∷ s) host p e = elim (Bool-cases (c == b'[')) [
  | inl h ↦ parse_bracketed_sound (c ∷ s) host p (unfold parse_host_and_port in rw h at e)
  | inr h ↦ parse_plain_sound (c ∷ s) host p (unfold parse_host_and_port in rw h at e)
]
