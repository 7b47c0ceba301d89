-- ===== src/Message/Assemble/Output.antt =====
-- c_src/parser.cc: what `AssembleRawHeaders` writes, and when it fails.
use elixir_sippet.Base.{
  ℕ, suc, ◌+◌, ◌≤◌, Bool, true, false, [], ◌∷◌, Option, none, some, Bytes, All, All-append, length,
  ◌≡◌, ◌≢◌, ◌⊎◌, ◌↔◌, inl, inr, refl, arith, ◌==◌, if◌then◌else◌, Bool-cases, length-append,
}
use elixir_sippet.Message.Assemble.Join.{join, line_end, prepend, assemble_raw_headers-join}
use elixir_sippet.Message.Assemble.{assemble_raw_headers}

line_end-le : (s : Bytes) → length (line_end s) ≤ 1
unfolding line_end
line_end-le [] = omega arith
line_end-le (c ∷ s) = ground arith

-- An output of at most `n` characters, with no carriage return.
abbrev pub Fits : ℕ → Option Bytes → Type 0
Fits n none = Unit
Fits n (some t) = (length t ≤ n) × All (λ c. c ≢ b'\r') t

line_end-All : (s : Bytes) → All (λ c. c ≢ b'\r') (line_end s)
unfolding line_end
line_end-All [] = tt
line_end-All (c ∷ s) = ground arith

prepend-Fits :
    (n k : ℕ) (s : Bytes) (r : Option Bytes)
    → length s + n ≤ k
    → All (λ c. c ≢ b'\r') s
    → Fits n r
    → Fits k (prepend s r)
prepend-Fits n k s none le all h = tt
prepend-Fits n k s (some t) le all (h, ha) =
    (omega (arith, length-append s t), All-append (λ c. c ≢ b'\r') s t all ha)

join-Fits : (returned : Bool) (s : Bytes) → Fits (length s) (join returned s)
unfolding join
join-Fits true [] = tt
join-Fits false [] = (omega arith, tt)
join-Fits returned (c ∷ s) = elim (Bool-cases (c == b'\n')) [
  | inl feed ↦ rw feed (
      prepend-Fits (length s) (suc (length s)) (line_end s) (join false s)
        (omega (arith, line_end-le s)) (line_end-All s) (join-Fits false s))
  | inr other ↦ elim (Bool-cases (c == b'\r')) [
    | inl cr ↦ rw (other, cr) (after _ returned (weaken (join true s) (join-Fits true s)))
    | inr nocr ↦
        rw (other, nocr)
          (after _ returned (
            prepend-Fits (length s) (suc (length s)) (c ∷ []) (join false s) (omega arith)
              (ground arith, tt) (join-Fits false s)))
  ]
]
  where
    weaken : (r : Option Bytes) → Fits (length s) r → Fits (suc (length s)) r
    weaken none h = tt
    weaken (some t) (h, ha) = (omega arith, ha)

    after :
        (r : Option Bytes) (b : Bool)
        → Fits (suc (length s)) r
        → Fits (suc (length s)) (if b then none else r)
    after r true h = tt
    after r false h = h

-- The text that `AssembleRawHeaders` writes fits the space that it reserves, the length of its
-- input, and holds no carriage return.
pub assemble_raw_headers-Fits : (s : Bytes) → Fits (length s) (assemble_raw_headers s)
assemble_raw_headers-Fits s = rw (assemble_raw_headers-join s) (join-Fits false s)

-- A carriage return at the end, or in front of another character than a line feed.
abbrev pub BareReturn : Bytes → Type 0
BareReturn [] = ⊥
BareReturn (c ∷ []) = c ≡ b'\r'
BareReturn (c ∷ d ∷ s) = ((c ≡ b'\r') × (d ≢ b'\n')) ⊎ BareReturn (d ∷ s)

prepend-none : (s : Bytes) (r : Option Bytes) → (prepend s r ≡ none) ↔ (r ≡ none)
prepend-none s none = (λ h. refl, λ h. refl)
prepend-none s (some t) = (λ h. cc, λ h. cc)

join-none : (s : Bytes) → (join false s ≡ none) ↔ BareReturn s
unfolding join
join-none [] = (λ h. cc, λ h. absurd h)
join-none (c ∷ []) = (λ h. ground arith, λ h. ground arith)
join-none (c ∷ d ∷ s) = (
  λ h. ground (
    arith,
    (join-none (d ∷ s)).0,
    prepend-none (line_end (d ∷ s)) (join false (d ∷ s)),
    prepend-none (c ∷ []) (join false (d ∷ s)),
  ),
  λ h. ground (
    arith,
    (join-none (d ∷ s)).1,
    prepend-none (line_end (d ∷ s)) (join false (d ∷ s)),
    prepend-none (c ∷ []) (join false (d ∷ s)),
  ),
)

-- `AssembleRawHeaders` fails exactly for a text with a carriage return that stands at the end or in
-- front of another character than a line feed.
pub assemble_raw_headers-none : (s : Bytes) → (assemble_raw_headers s ≡ none) ↔ BareReturn s
assemble_raw_headers-none s = rw (assemble_raw_headers-join s) (join-none s)
