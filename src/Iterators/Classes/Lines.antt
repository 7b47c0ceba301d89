-- ===== src/Iterators/Classes/Lines.antt =====
-- c_src/utils.cc and c_src/utils.h: `HeadersIterator` with the tokenizer that it holds, and its agreement
-- with the iterator as a function of the text ahead.
use elixir_sippet.Ascii.{lower_case_equals_ascii}
use elixir_sippet.Base.{
  ℕ, zero, suc, Bool, true, false, not, [], Option, none, some, Bytes, find_next, rounds, ◌≡◌, refl,
  sym, ap, ◌∙◌, inl, inr, Bool-cases, Option-cases, if◌then◌else◌,
}
use elixir_sippet.Iterators.Classes.Values.{found_token, get_next-keeps}
use elixir_sippet.Iterators.Headers.{HeaderLine, header_line, headers_next, advance_to, line_breaks}
use elixir_sippet.StringTokenizer
use elixir_sippet.StringTokenizer.Machine
use elixir_sippet.StringTokenizer.Machine.{TokenizerState, init, reset, token}

-- The tokenizer, and what the accessors `name()` and `values()` show behind a call that returned true.
pub record LinesState : Type 0 where
  pub lines : TokenizerState
  pub header : HeaderLine

-- The constructor
unfoldable lines_init : Bytes → Bytes → LinesState
unfolding init
lines_init string line_delimiter = record {
  lines = init string line_delimiter;
  header = record { name = []; values = [] };
}

-- `HeadersIterator::Reset`
unfoldable lines_reset : LinesState → LinesState
unfolding reset
lines_reset t = record t { lines = reset t.lines }

-- The loop of `GetNext`, which runs on in front of a line that is no header.
unfoldable lines_loop : ℕ → LinesState → Bool × LinesState
unfolding token header_line Machine.get_next
lines_loop zero t = (false, t)
lines_loop (suc fuel) t =
    let (found, lines) = Machine.get_next t.lines in
    let further = lines_loop fuel (record t { lines = lines }) in
    if not found then (false, record t { lines = lines }) else elim (header_line (token lines)) [
      | none ↦ further
      | some header ↦ (true, record { lines = lines; header = header })
    ]

-- `HeadersIterator::GetNext`
unfoldable lines_get_next : LinesState → Bool × LinesState
unfolding lines_loop
lines_get_next t = lines_loop (rounds t.lines.token_end) t

-- The loop of `AdvanceTo`
unfoldable lines_advance_loop : Bytes → ℕ → LinesState → Bool × LinesState
unfolding lines_get_next lower_case_equals_ascii
lines_advance_loop lowercase_name zero t = (false, t)
lines_advance_loop lowercase_name (suc fuel) t =
    let (found, next) = lines_get_next t in
    let further = lines_advance_loop lowercase_name fuel next in
    if not found
    then (false, next)
    else if lower_case_equals_ascii next.header.name lowercase_name
    then (true, next)
    else further

-- `HeadersIterator::AdvanceTo`
unfoldable lines_advance_to : Bytes → LinesState → Bool × LinesState
unfolding lines_advance_loop
lines_advance_to lowercase_name t = lines_advance_loop lowercase_name (rounds t.lines.token_end) t

-- What a call shows: the header, and the text behind it.
abbrev shown_header : Bool × LinesState → Option (HeaderLine × Bytes)
shown_header (found, t) = if found then some (t.header, t.lines.token_end) else none

loop_lem :
    (n : ℕ) (t : LinesState)
    → t.lines.options ≡ 0
    → shown_header (lines_loop n t)
      ≡ find_next
          (StringTokenizer.get_next t.lines.delims t.lines.quotes)
          header_line
          n
          t.lines.token_end
unfolding lines_loop find_next
loop_lem zero t h = refl
loop_lem (suc n) t h =
    let v = (Machine.get_next t.lines).1 in
    let t' : LinesState = record t { lines = v } in
    let (same_delims, same_quotes, same_options) = get_next-keeps t.lines in
    let rest = loop_lem n t' (same_options ∙ h) in
    let later = rw (same_delims, same_quotes) at rest in
    elim (Bool-cases (Machine.get_next t.lines).0) [
      | inl found ↦ elim (Option-cases (header_line (token v))) [
        | inl other ↦ rw (lines_loop, find_next, found_token t.lines h, found, other) later
        | inr (header, e) ↦ rw (lines_loop, find_next, found_token t.lines h, found, e) refl
      ]
      | inr stopped ↦ rw (lines_loop, find_next, found_token t.lines h, stopped) refl
    ]

-- A header iterator as the constructor makes it, wherever it stands.
abbrev SplitsLines : LinesState → Type 0
SplitsLines t = (t.lines.options ≡ 0) × (t.lines.delims ≡ line_breaks) × (t.lines.quotes ≡ [])

loop-SplitsLines : (n : ℕ) (t : LinesState) → SplitsLines t → SplitsLines (lines_loop n t).1
unfolding lines_loop
loop-SplitsLines zero t h = h
loop-SplitsLines (suc n) t (o, d, q) =
    let v = (Machine.get_next t.lines).1 in
    let t' : LinesState = record t { lines = v } in
    let (same_delims, same_quotes, same_options) = get_next-keeps t.lines in
    let kept : SplitsLines t' = (same_options ∙ o, same_delims ∙ d, same_quotes ∙ q) in
    let later = loop-SplitsLines n t' kept in
    elim (Bool-cases (Machine.get_next t.lines).0) [
      | inl found ↦ elim (Option-cases (header_line (token v))) [
        | inl other ↦ rw (lines_loop, found, other) later
        | inr (header, e) ↦ rw (lines_loop, found, e) kept
      ]
      | inr stopped ↦ rw (lines_loop, stopped) kept
    ]

lines_get_next-SplitsLines : (t : LinesState) → SplitsLines t → SplitsLines (lines_get_next t).1
unfolding lines_get_next
lines_get_next-SplitsLines t h = loop-SplitsLines (rounds t.lines.token_end) t h

-- A call of `HeadersIterator::GetNext` finds what the iterator as a function of the text ahead finds.
lines_get_next-headers_next :
    (t : LinesState)
    → SplitsLines t
    → shown_header (lines_get_next t) ≡ headers_next t.lines.token_end
unfolding lines_get_next headers_next
lines_get_next-headers_next t (o, d, q) =
    loop_lem (rounds t.lines.token_end) t o
    ∙ ap
        (λ delims.
          find_next (StringTokenizer.get_next delims t.lines.quotes) header_line
            (rounds t.lines.token_end) t.lines.token_end)
        d
    ∙ ap
        (λ quotes.
          find_next (StringTokenizer.get_next line_breaks quotes) header_line
            (rounds t.lines.token_end) t.lines.token_end)
        q

-- The same, in the form that a loop over the calls reads.
next_header :
    (t : LinesState)
    → SplitsLines t
    → headers_next t.lines.token_end ≡ (
        if (lines_get_next t).0
        then some ((lines_get_next t).1.header, (lines_get_next t).1.lines.token_end)
        else none)
next_header t h = sym (lines_get_next-headers_next t h)

advance_loop_lem :
    (name : Bytes) (n : ℕ) (t : LinesState)
    → SplitsLines t
    → shown_header (lines_advance_loop name n t)
      ≡ find_next headers_next
          (λ h. if lower_case_equals_ascii h.name name then some h else none)
          n
          t.lines.token_end
unfolding lines_advance_loop find_next
advance_loop_lem name zero t h = refl
advance_loop_lem name (suc n) t h =
    let later = advance_loop_lem name n (lines_get_next t).1 (lines_get_next-SplitsLines t h) in
    elim (Bool-cases (lines_get_next t).0) [
      | inl found ↦
          elim (Bool-cases (lower_case_equals_ascii (lines_get_next t).1.header.name name)) [
            | inl same ↦ rw (lines_advance_loop, find_next, next_header t h, found, same) refl
            | inr other ↦ rw (lines_advance_loop, find_next, next_header t h, found, other) later
          ]
      | inr stopped ↦ rw (lines_advance_loop, find_next, next_header t h, stopped) refl
    ]

-- From wherever the iterator stands, `AdvanceTo` finds the first header of the name in the text ahead,
-- as the iterator as a function of the text does.
lines_advance_to-advance_to :
    (name : Bytes) (t : LinesState)
    → SplitsLines t
    → shown_header (lines_advance_to name t) ≡ advance_to name t.lines.token_end
unfolding lines_advance_to advance_to
lines_advance_to-advance_to name t h = advance_loop_lem name (rounds t.lines.token_end) t h

-- Behind `Reset`, `AdvanceTo` finds the first header of the name in the whole text.
lines_advance_to-lines_reset :
    (name : Bytes) (t : LinesState)
    → SplitsLines t
    → shown_header (lines_advance_to name (lines_reset t)) ≡ advance_to name t.lines.start_pos
unfolding lines_reset reset
lines_advance_to-lines_reset name t h = lines_advance_to-advance_to name (lines_reset t) h
