-- ===== src/Iterators/Classes/Values.antt =====
-- c_src/utils.cc: `ValuesIterator` with its state, against the iterator as a function of the text ahead.
use elixir_sippet.Base.{
  ℕ, zero, suc, Bool, [], ◌∷◌, Option, none, some, Bytes, find_next, rounds, ◌≡◌, refl, sym, ◌∙◌,
  inl, inr, Bool-cases, if◌then◌else◌,
}
use elixir_sippet.Iterators.Classes.{ValuesState, values_loop, values_get_next}
use elixir_sippet.Iterators.{trimmed_value, quoted_values_next}
use elixir_sippet.StringTokenizer
use elixir_sippet.StringTokenizer.Machine
use elixir_sippet.StringTokenizer.Machine.Plain.{get_next-plain}
use elixir_sippet.StringTokenizer.Machine.{TokenizerState, token}
use elixir_sippet.Tokenizer.{end_of_input}
use elixir_sippet.Trim.{trim_lws}

-- The value, and the text behind it, if a call finds one.
abbrev pub found_value : Bool × ValuesState → Option (Bytes × Bytes)
found_value (found, t) = if found then some (t.value, t.values.token_end) else none

-- The members that `GetNext` leaves as they are.
pub get_next-keeps :
    (t : TokenizerState)
    → ((Machine.get_next t).1.delims ≡ t.delims)
      × ((Machine.get_next t).1.quotes ≡ t.quotes)
      × ((Machine.get_next t).1.options ≡ t.options)
unfolding Machine.get_next
get_next-keeps t = (refl, refl, refl)

-- What a tokenizer without options finds.
pub found_token :
    (t : TokenizerState)
    → t.options ≡ 0
    → StringTokenizer.get_next t.delims t.quotes t.token_end ≡ (
        if (Machine.get_next t).0
        then some (token (Machine.get_next t).1, (Machine.get_next t).1.token_end)
        else none)
found_token t h = sym (get_next-plain t h)

loop_lem :
    (n : ℕ) (t : ValuesState)
    → t.values.options ≡ 0
    → found_value (values_loop n t)
      ≡ find_next
          (StringTokenizer.get_next t.values.delims t.values.quotes)
          trimmed_value
          n
          t.values.token_end
unfolding values_loop find_next trimmed_value
loop_lem zero t h = refl
loop_lem (suc n) t h =
    let v = (Machine.get_next t.values).1 in
    let t' : ValuesState = record { values = v; value = trim_lws (token v) } in
    let (same_delims, same_quotes, same_options) = get_next-keeps t.values in
    let rest = loop_lem n t' (same_options ∙ h) in
    let later = rw (same_delims, same_quotes) at rest in
    elim (Bool-cases (Machine.get_next t.values).0) [
      | inl found ↦ elim (Bool-cases (end_of_input (trim_lws (token v)))) [
        | inl empty ↦ rw (values_loop, find_next, found_token t.values h, found, empty) later
        | inr full ↦ rw (values_loop, find_next, found_token t.values h, found, full) refl
      ]
      | inr stopped ↦ rw (values_loop, find_next, found_token t.values h, stopped) refl
    ]

-- A call moves the tokenizer on, and sets no option and no set of characters.
loop_keeps :
    (n : ℕ) (t : ValuesState)
    → ((values_loop n t).1.values.delims ≡ t.values.delims)
      × ((values_loop n t).1.values.quotes ≡ t.values.quotes)
      × ((values_loop n t).1.values.options ≡ t.values.options)
unfolding values_loop
loop_keeps zero t = (refl, refl, refl)
loop_keeps (suc n) t =
    let v = (Machine.get_next t.values).1 in
    let (same_delims, same_quotes, same_options) = get_next-keeps t.values in
    let (d, q, o) = loop_keeps n (record { values = v; value = trim_lws (token v) }) in
    elim (Bool-cases (Machine.get_next t.values).0) [
      | inl found ↦ elim (Bool-cases (end_of_input (trim_lws (token v)))) [
        | inl empty ↦
            rw (values_loop, found, empty) (d ∙ same_delims, q ∙ same_quotes, o ∙ same_options)
        | inr full ↦ rw (values_loop, found, full) (same_delims, same_quotes, same_options)
      ]
      | inr stopped ↦ rw (values_loop, stopped) (same_delims, same_quotes, same_options)
    ]

-- A values iterator over one delimiter, with no option set.
abbrev pub Delimited : ℕ → ValuesState → Type 0
Delimited d t = (t.values.options ≡ 0) × (t.values.delims ≡ d ∷ [])

pub values_get_next-Delimited :
    (d : ℕ) (t : ValuesState)
    → Delimited d t
    → Delimited d (values_get_next t).1 × ((values_get_next t).1.values.quotes ≡ t.values.quotes)
unfolding values_get_next
values_get_next-Delimited d t (o, e) =
    let (same_delims, same_quotes, same_options) = loop_keeps (rounds t.values.token_end) t in
    ((same_options ∙ o, same_delims ∙ e), same_quotes)

-- A call of `ValuesIterator::GetNext` finds what the iterator as a function of the text ahead finds.
pub values_get_next-quoted_values_next :
    (d : ℕ) (t : ValuesState)
    → Delimited d t
    → found_value (values_get_next t) ≡ quoted_values_next d t.values.quotes t.values.token_end
unfolding values_get_next quoted_values_next
values_get_next-quoted_values_next d t (o, e) = rw (← e) (loop_lem (rounds t.values.token_end) t o)
