-- ===== src/Message/Assemble/Join.antt =====
-- c_src/parser.cc: `AssembleRawHeaders` against a description in one pass over the characters.
use elixir_sippet.Base.{
  ℕ, zero, suc, ◌+◌, ◌≤◌, ◌<◌, Bool, true, false, not, [], ◌∷◌, ◌++◌, Option, none, some, Bytes,
  ◌||◌, All, length, ◌≡◌, ◌≢◌, ◌⊎◌, inl, inr, refl, sym, ap, ◌∙◌, arith, append_assoc, append-nil,
  ◌==◌, if◌then◌else◌, Bool-cases, rounds, length-append,
}
use elixir_sippet.Ascii.{is_lws}
use elixir_sippet.Message.Assemble.{
  is_break, after_return, after_break, line_feed, assemble, assemble_raw_headers,
}
use elixir_sippet.Tokenizer.Span.{append-span, span-All, span-StopsAt, StopsAt}
use elixir_sippet.Tokenizer.{span}

-- A text put in front of a result.
abbrev pub prepend : Bytes → Option Bytes → Option Bytes
prepend s none = none
prepend s (some t) = some (s ++ t)

-- What a line break becomes in front of a text: a line feed, or nothing at the end and in front of a
-- space, a tab or a NUL.
unfoldable pub line_end : Bytes → Bytes
line_end [] = []
line_end (c ∷ s) = if c == b' ' || c == b'\t' || c == 0 then [] else b'\n' ∷ []

line_feed-line_end : (s : Bytes) → line_feed s ≡ line_end s
unfolding line_feed line_end is_lws
line_feed-line_end [] = refl
line_feed-line_end (c ∷ s) = elim (Bool-cases (c == b' ' || c == b'\t' || c == 0)) [
  | inl blank ↦ rw blank refl
  | inr other ↦ rw other refl
]

-- Every character but line breaks is copied; a line break is a line feed, or a carriage return with
-- a line feed behind it, and becomes a line feed, or nothing in front of a blank or at the end.
-- `returned` tells that a carriage return was the last character.
unfoldable pub join : Bool → Bytes → Option Bytes
unfolding line_end
join true [] = none
join false [] = some []
join returned (c ∷ s) =
    let again = join true s in
    let rest = join false s in
    if c == b'\n'
    then prepend (line_end s) rest
    else if returned
    then none
    else if c == b'\r'
    then again
    else prepend (c ∷ []) rest

prepend-prepend : (s t : Bytes) (r : Option Bytes) → prepend s (prepend t r) ≡ prepend (s ++ t) r
prepend-prepend s t none = refl
prepend-prepend s t (some u) = ap some (sym (append_assoc s t u))

pub prepend-nil : (r : Option Bytes) → r ≡ prepend [] r
prepend-nil none = refl
prepend-nil (some u) = refl

pub join-append :
    (line rest : Bytes)
    → All (λ c. (not (is_break c)) ≡ true) line
    → join false (line ++ rest) ≡ prepend line (join false rest)
join-append [] rest all = prepend-nil (join false rest)
join-append (c ∷ line) rest (h, all) =
    copy
    ∙ ap (prepend (c ∷ [])) (join-append line rest all)
    ∙ prepend-prepend (c ∷ []) line (join false rest)
  where
    copy : join false (c ∷ (line ++ rest)) ≡ prepend (c ∷ []) (join false (line ++ rest))
    copy = unfold join in ground arith

-- At a line break, or at the end, the loop and the description find the same next line.
join-break :
    (rest : Bytes)
    → StopsAt (λ c. not (is_break c)) rest
    → ((after_break rest ≡ none) × (join false rest ≡ none))
      ⊎ ((next : Bytes) × (after_break rest ≡ some next)
          × (join false rest ≡ prepend (line_end next) (join false next))
          × (length next ≤ length rest)
          × (length rest ≢ 0 → length next < length rest))
unfolding join after_break after_return
join-break [] h = inr ([], refl, unfold line_end in refl, omega arith, λ n. absurd (n refl))
join-break (c ∷ []) h = elim (Bool-cases (c == b'\n')) [
  | inl feed ↦ inr ([], rw feed, rw feed, omega arith, λ _. omega arith)
  | inr other ↦
      let return : (c == b'\r') ≡ true = ground arith in inl (rw other, rw (other, return))
]
join-break (c ∷ d ∷ s) h = elim (Bool-cases (c == b'\n')) [
  | inl feed ↦ inr (d ∷ s, rw feed, rw feed, omega arith, λ _. omega arith)
  | inr other ↦
      let return : (c == b'\r') ≡ true = ground arith in
      elim (Bool-cases (d == b'\n')) [
        | inl feed ↦
            inr (s, rw (other, feed), rw (other, return, feed), omega arith, λ _. omega arith)
        | inr bad ↦ inl (rw (other, bad), rw (other, return, bad))
      ]
]

assemble-none :
    (fuel : ℕ) (c : ℕ) (s out : Bytes)
    → after_break (span (λ x. not (is_break x)) (c ∷ s)).1 ≡ none
    → assemble (suc fuel) (c ∷ s) out ≡ none
unfolding assemble after_break
assemble-none fuel c s out h =
    ap
      (λ r. elim r [
        | none ↦ none
        | some next ↦
            assemble fuel next (out ++ (span (λ x. not (is_break x)) (c ∷ s)).0 ++ line_feed next)
      ])
      h

assemble-some :
    (fuel : ℕ) (c : ℕ) (s out next : Bytes)
    → after_break (span (λ x. not (is_break x)) (c ∷ s)).1 ≡ some next
    → assemble (suc fuel) (c ∷ s) out
      ≡ assemble fuel next (out ++ (span (λ x. not (is_break x)) (c ∷ s)).0 ++ line_feed next)
unfolding assemble after_break
assemble-some fuel c s out next h =
    ap
      (λ r. elim r [
        | none ↦ none
        | some next ↦
            assemble fuel next (out ++ (span (λ x. not (is_break x)) (c ∷ s)).0 ++ line_feed next)
      ])
      h

shorter_next :
    (fuel s line rest next : ℕ)
    → suc s < suc fuel
    → line + rest ≡ suc s
    → next ≤ rest
    → (rest ≢ 0 → next < rest)
    → next < fuel
shorter_next fuel s line zero next h e le lt = omega arith
shorter_next fuel s line (suc rest) next h e le lt = let l = lt (omega arith) in omega arith

pub assemble-join :
    (fuel : ℕ) (s out : Bytes) → length s < fuel → assemble fuel s out ≡ prepend out (join false s)
assemble-join zero s out h = absurd (omega arith)
assemble-join (suc fuel) [] out h = unfold assemble join in ap some (sym (append-nil out))
assemble-join (suc fuel) (c ∷ s) out h =
    let test = λ (x : ℕ). not (is_break x) in
    let line = (span test (c ∷ s)).0 in
    let rest = (span test (c ∷ s)).1 in
    let split : join false (c ∷ s) ≡ prepend line (join false rest) =
      ap (join false) (sym (append-span test (c ∷ s)))
      ∙ join-append line rest (span-All test (c ∷ s)) in
    let shorter : length line + length rest ≡ suc (length s) =
      sym (length-append line rest) ∙ ap length (append-span test (c ∷ s)) in
    elim (join-break rest (span-StopsAt test (c ∷ s))) [
      | inl (bad, none_too) ↦ rw (split, none_too) (assemble-none fuel c s out bad)
      | inr (next, e, j, le, lt) ↦
          rw (split, j, ← line_feed-line_end next, assemble-some fuel c s out next e)
            (assemble-join fuel next (out ++ line ++ line_feed next) (
                shorter_next fuel (length s) (length line) (length rest) (length next) h shorter le
                  lt)
              ∙ sym (
                  prepend-prepend out line (prepend (line_feed next) (join false next))
                  ∙ prepend-prepend (out ++ line) (line_feed next) (join false next)))
    ]

-- `AssembleRawHeaders` does what a description in one pass over the characters says: a line break
-- becomes a line feed, or nothing where a space, a tab or a NUL follows it or nothing does, and a
-- carriage return with no line feed behind it is an error.
pub assemble_raw_headers-join : (s : Bytes) → assemble_raw_headers s ≡ join false s
unfolding assemble_raw_headers
assemble_raw_headers-join s = assemble-join (rounds s) s [] (omega arith) ∙ nothing (join false s)
  where
    nothing : (r : Option Bytes) → prepend [] r ≡ r
    nothing none = refl
    nothing (some t) = refl
