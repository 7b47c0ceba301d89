-- ===== src/Iterators/Classes/Loop.antt =====
-- c_src/utils.cc: a loop over a `NameValuePairsIterator`, and what `valid()` says behind it.
use elixir_sippet.Base.Yields.{Yields, stop, more}
use elixir_sippet.Base.{
  ℕ, zero, suc, ◌<◌, ◌≤◌, Bool, true, false, ◌&&◌, List, [], ◌∷◌, none, some, Bytes, length, rounds,
  ◌≡◌, refl, ap, ◌∙◌, inl, inr, arith, Bool-cases, Option-cases, if◌then◌else◌,
}
use elixir_sippet.Iterators.Classes.Pairs.{
  is_some, prop_step-Leaves, next_pair, next_valid, shown_pair, pairs_get_next-name_value_pair,
}
use elixir_sippet.Iterators.Classes.Values.{Delimited, values_get_next-Delimited}
use elixir_sippet.Iterators.Classes.{
  values_init, values_get_next, PairsState, pairs_init, pairs_get_next,
}
use elixir_sippet.Iterators.Parameters.{Pair, name_value_pair}
use elixir_sippet.Iterators.Split.{split_values, values_next-Yields}
use elixir_sippet.Iterators.{values_next, value_quotes}
use elixir_sippet.StringTokenizer.Machine.{init, set_quote_chars}

-- `while (it.GetNext())`: the iterator behind the call that returns false.
unfoldable pub after_loop : ℕ → PairsState → PairsState
after_loop zero t = t
after_loop (suc fuel) t =
    let further = after_loop fuel (pairs_get_next t).1 in
    if (pairs_get_next t).0 then further else (pairs_get_next t).1

-- Each of the texts is a pair.
abbrev pub all_pairs : List Bytes → Bool
all_pairs [] = true
all_pairs (v ∷ vs) = is_some (name_value_pair false false v) && all_pairs vs

-- An iterator as the shorter constructor makes it, wherever it stands.
abbrev Default : ℕ → PairsState → Type 0
Default d t =
    Delimited d t.props
    × (t.props.values.quotes ≡ value_quotes)
    × (t.values_optional ≡ false)
    × (t.strict_quotes ≡ false)

pairs_get_next-Default : (d : ℕ) (t : PairsState) → Default d t → Default d (pairs_get_next t).1
unfolding pairs_get_next
pairs_get_next-Default d t (h, q, o, s) =
    let props = (values_get_next t.props).1 in
    let (h', q') = values_get_next-Delimited d t.props h in
    let stopped : PairsState = record t { props = props } in
    let (_, _, same, o', s') = prop_step-Leaves stopped props.value in
    elim (Bool-cases (values_get_next t.props).0) [
      | inl found ↦ rw (found, same, o', s') (h', q' ∙ q, o, s)
      | inr none_left ↦ rw none_left (h', q' ∙ q, o, s)
    ]

step-Default :
    (d : ℕ) (t : PairsState)
    → Default d t
    → (shown_pair (pairs_get_next t)
        ≡ next_pair false false (values_next d t.props.values.token_end))
      × ((pairs_get_next t).1.valid
          ≡ (t.valid && next_valid false false (values_next d t.props.values.token_end)))
unfolding values_next
step-Default d t (h, q, o, s) =
    let (pair, valid) = pairs_get_next-name_value_pair d t h in
    (pair ∙ rw (q, o, s) refl, valid ∙ rw (q, o, s) refl)

not_found : (r : Bool × PairsState) → shown_pair r ≡ none → r.0 ≡ false
not_found (true, t) h = absurd cc
not_found (false, t) h = refl

found_behind :
    (r : Bool × PairsState) (p : Pair) (rest : Bytes)
    → shown_pair r ≡ some (p, rest)
    → (r.0 ≡ true) × (rest ≡ r.1.props.values.token_end)
found_behind (true, t) p rest h = (refl, cc)
found_behind (false, t) p rest h = absurd cc

loop_last :
    (fuel : ℕ) (t : PairsState)
    → (pairs_get_next t).0 ≡ false
    → after_loop (suc fuel) t ≡ (pairs_get_next t).1
unfolding after_loop
loop_last fuel t h = rw (after_loop, h) refl

loop_on :
    (fuel : ℕ) (t : PairsState)
    → (pairs_get_next t).0 ≡ true
    → after_loop (suc fuel) t ≡ after_loop fuel (pairs_get_next t).1
unfolding after_loop
loop_on fuel t h = rw (after_loop, h) refl

regroup : (a b c : Bool) → ((a && b) && c) ≡ (a && (b && c))
regroup a b c = ground arith

after_loop-valid :
    (d fuel : ℕ) (t : PairsState) {vs : List Bytes}
    → Default d t
    → Yields (values_next d) t.props.values.token_end vs
    → length vs < fuel
    → (after_loop fuel t).valid ≡ (t.valid && all_pairs vs)
after_loop-valid d zero t h y lt = absurd (omega arith)
after_loop-valid d (suc fuel) t h (stop e) lt =
    let (pair, valid) = step-Default d t h in
    let last = not_found (pairs_get_next t) (pair ∙ ap (next_pair false false) e) in
    ap (λ (r : PairsState). r.valid) (loop_last fuel t last)
    ∙ valid
    ∙ ap (λ o. t.valid && next_valid false false o) e
after_loop-valid d (suc fuel) t h (more {rest} {a} {vs} e shorter y) lt =
    let (pair, valid) = step-Default d t h in
    let pair' = pair ∙ ap (next_pair false false) e in
    let valid' = valid ∙ ap (λ o. t.valid && next_valid false false o) e in
    elim (Option-cases (name_value_pair false false a)) [
      | inl bad ↦
          let last = not_found (pairs_get_next t) (rw (bad, next_pair) at pair') in
          ap (λ (r : PairsState). r.valid) (loop_last fuel t last)
          ∙ valid'
          ∙ rw (bad, all_pairs) refl
      | inr (p, good) ↦
          let (on, behind) =
            found_behind (pairs_get_next t) p rest (rw (good, next_pair) at pair') in
          let later =
            after_loop-valid d fuel (pairs_get_next t).1 (pairs_get_next-Default d t h)
              (rw (← behind) y) (omega arith) in
          ap (λ (r : PairsState). r.valid) (loop_on fuel t on)
          ∙ later
          ∙ ap (λ b. b && all_pairs vs) valid'
          ∙ regroup t.valid (is_some (name_value_pair false false a)) (all_pairs vs)
    ]

length-Yields :
    (d : ℕ) {s : Bytes} {vs : List Bytes} → Yields (values_next d) s vs → length vs ≤ length s
length-Yields d (stop e) = omega arith
length-Yields d (more e shorter y) = let le = length-Yields d y in omega arith

-- Behind a loop over a fresh `NameValuePairsIterator` in which values are required and quotes are
-- not strict, `valid()` tells whether each of the texts between the delimiters was a pair.
pairs_init-valid :
    (d : ℕ) (s : Bytes)
    → (after_loop (rounds s) (pairs_init s d false false)).valid ≡ all_pairs (split_values d s)
pairs_init-valid d s =
    let t = pairs_init s d false false in
    let fresh : Default d t =
      unfold pairs_init values_init init set_quote_chars in ((refl, refl), refl, refl, refl) in
    let texts : Yields (values_next d) t.props.values.token_end (split_values d s) =
      unfold pairs_init values_init init set_quote_chars in values_next-Yields d s in
    let enough : length (split_values d s) < rounds s =
      let le = length-Yields d (values_next-Yields d s) in omega arith in
    let valid : t.valid ≡ true = unfold pairs_init in refl in
    after_loop-valid d (rounds s) t fresh texts enough ∙ rw valid refl
