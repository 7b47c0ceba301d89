-- ===== src/Iterators/Classes/Pairs/Written.antt =====
-- c_src/utils.cc: `NameValuePairsIterator` on texts that are written out.
use elixir_sippet.Ascii.{is_lws, is_quote}
use elixir_sippet.Base.{
  ℕ, Bool, true, false, not, ◌&&◌, [], ◌∷◌, ◌++◌, append-nil, Option, none, some, Bytes, All, ◌≡◌,
  ◌≢◌, refl, sym, ap, ◌∙◌, arith, inl, inr, Bool-cases, ◌==◌, if◌then◌else◌,
}
use elixir_sippet.Iterators.Classes.Pairs.{
  is_some, next_pair, next_valid, shown_pair, pairs_get_next-name_value_pair,
}
use elixir_sippet.Iterators.Classes.Values.{Delimited}
use elixir_sippet.Iterators.Classes.{PairsState, pairs_get_next}
use elixir_sippet.Iterators.Parameters.{
  Pair, lenient_value, at_equals, is_pair_quote, has_quote, pair_value, name_value_pair,
}
use elixir_sippet.Iterators.{quoted_values_next}
use elixir_sippet.Tokenizer.Span.{StopsAt, span-append}
use elixir_sippet.Tokenizer.{span, skip_one, end_of_input}
use elixir_sippet.Trim.Trimmed.{EndsOutside, trim_lws-fixes}
use elixir_sippet.Trim.{trim_lws, trim_left, trim_right}
use elixir_sippet.Unquote.RoundTrip.{
  escape, quoted, unquote-quoted, strict_unquote-quoted, split_last-append,
}

-- What may stand between two delimiters: a name, an equals sign and a quoted-string or a plain value; a
-- name alone; a name and an equals sign with blanks behind it; an equals sign first; a double quote in
-- front of the equals sign.
pub data Written : Type 0 where
  quoted_pair : Bytes → Bytes → Written
  plain_pair : Bytes → Bytes → Written
  lone_name : Bytes → Written
  no_value : Bytes → Bytes → Written
  no_name : Bytes → Written
  quote_in_name : Bytes → Bytes → Bytes → Written

-- The text
abbrev pub text_of : Written → Bytes
text_of (quoted_pair name text) = name ++ b'=' ∷ quoted b'"' text
text_of (plain_pair name value) = name ++ b'=' ∷ value
text_of (lone_name name) = name
text_of (no_value name blanks) = name ++ b'=' ∷ blanks
text_of (no_name s) = b'=' ∷ s
text_of (quote_in_name a b s) = (a ++ b'"' ∷ b) ++ b'=' ∷ s

-- The pair that it stands for, with values optional or not.
abbrev pub pair_of : Bool → Written → Option Pair
pair_of optional (quoted_pair name text) = some (record { name = name; value = text })
pair_of optional (plain_pair name value) = some (record { name = name; value = value })
pair_of optional (lone_name name) =
    if optional then some (record { name = name; value = [] }) else none
pair_of optional (no_value name blanks) = none
pair_of optional (no_name s) = none
pair_of optional (quote_in_name a b s) = none

abbrev pub NoEquals : Bytes → Type 0
NoEquals s = All (λ c. not (c == b'=') ≡ true) s

-- A name that is not empty, without equals signs, quote marks and blanks at its ends.
abbrev pub IsName : Bytes → Type 0
IsName name =
    (name ≢ [])
    × NoEquals name
    × All (λ c. is_quote c ≡ false) name
    × StopsAt is_lws name
    × EndsOutside is_lws name

-- A value that is not empty, does not begin with a quote mark, and has no blanks at its ends.
abbrev pub IsValue : Bytes → Type 0
IsValue value =
    (value ≢ []) × StopsAt is_quote value × StopsAt is_lws value × EndsOutside is_lws value

abbrev pub IsWritten : Written → Type 0
IsWritten (quoted_pair name text) = IsName name
IsWritten (plain_pair name value) = IsName name × IsValue value
IsWritten (lone_name name) = IsName name
IsWritten (no_value name blanks) = NoEquals name × All (λ c. is_lws c ≡ true) blanks
IsWritten (no_name s) = Unit
IsWritten (quote_in_name a b s) = NoEquals (a ++ b'"' ∷ b)

at_equals-append :
    (name s : Bytes) → NoEquals name → at_equals (name ++ b'=' ∷ s) ≡ (name, b'=' ∷ s)
unfolding at_equals
at_equals-append name s h = span-append (λ c. not (c == b'=')) name (b'=' ∷ s) h refl

has_quote-none :
    (strict : Bool) (name : Bytes)
    → All (λ c. is_quote c ≡ false) name
    → has_quote strict name ≡ false
unfolding has_quote is_pair_quote is_quote
has_quote-none strict [] h = refl
has_quote-none strict (c ∷ name) (h, hs) = ground (arith, has_quote-none strict name hs)

has_quote-inside : (strict : Bool) (a b : Bytes) → has_quote strict (a ++ b'"' ∷ b) ≡ true
unfolding has_quote is_pair_quote is_quote
has_quote-inside strict [] b = ground arith
has_quote-inside strict (c ∷ a) b = ground (arith, has_quote-inside strict a b)

EndsOutside-quote : (s : Bytes) → EndsOutside is_lws (s ++ b'"' ∷ [])
unfolding is_lws
EndsOutside-quote [] = refl
EndsOutside-quote (c ∷ []) = refl
EndsOutside-quote (c ∷ d ∷ s) = EndsOutside-quote (d ∷ s)

trim_lws-quoted : (text : Bytes) → trim_lws (quoted b'"' text) ≡ quoted b'"' text
trim_lws-quoted text =
    trim_lws-fixes (quoted b'"' text) (unfold is_lws in refl)
      (EndsOutside-quote (b'"' ∷ escape b'"' text))

append_last-some : (s : Bytes) (q : ℕ) → end_of_input (s ++ q ∷ []) ≡ false
append_last-some [] q = refl
append_last-some (c ∷ s) q = refl

pair_value-quoted :
    (strict : Bool) (text : Bytes) → pair_value strict (quoted b'"' text) ≡ some text
unfolding pair_value is_pair_quote is_quote
pair_value-quoted true text = strict_unquote-quoted text
pair_value-quoted false text =
    unfold lenient_value in
    rw
      (
        split_last-append b'"' (escape b'"' text) b'"',
        append_last-some (escape b'"' text) b'"',
        unquote-quoted b'"' text refl,
      )
      refl

pair_value-plain :
    (strict : Bool) (value : Bytes) → StopsAt is_quote value → pair_value strict value ≡ some value
unfolding pair_value is_pair_quote is_quote
pair_value-plain strict [] h = refl
pair_value-plain strict (c ∷ value) h = ground arith

trim_lws-blank : (s : Bytes) → All (λ c. is_lws c ≡ true) s → trim_lws s ≡ []
unfolding trim_lws trim_left trim_right
trim_lws-blank s h =
    let none_left : span is_lws s ≡ (s, []) =
      ap (span is_lws) (sym (append-nil s)) ∙ span-append is_lws s [] h tt in
    ap (λ r. trim_right is_lws r.1) none_left

-- A name and an equals sign in front of a text, where the trimmed text has a value.
name_value_pair-value :
    (optional strict : Bool) (name s value : Bytes)
    → IsName name
    → end_of_input (trim_lws s) ≡ false
    → pair_value strict (trim_lws s) ≡ some value
    → name_value_pair optional strict (name ++ b'=' ∷ s)
      ≡ some (record { name = name; value = value })
unfolding name_value_pair skip_one
name_value_pair-value optional strict [] s value (ne, _, _, _, _) some_left e = absurd (ne refl)
name_value_pair-value optional strict (c ∷ name) s value (_, no_equals, no_quotes, stops, ends)
      some_left e =
    rw
      (
        at_equals-append (c ∷ name) s no_equals,
        has_quote-none strict (c ∷ name) no_quotes,
        some_left,
        e,
        at_equals-append (c ∷ name) s no_equals,
        trim_lws-fixes (c ∷ name) stops ends,
      )
      refl

name_value_pair-lone :
    (optional strict : Bool) (name : Bytes)
    → IsName name
    → name_value_pair optional strict name ≡ pair_of optional (lone_name name)
unfolding name_value_pair skip_one at_equals pair_value
name_value_pair-lone optional strict [] (ne, _, _, _, _) = absurd (ne refl)
name_value_pair-lone optional strict (c ∷ name) (_, no_equals, no_quotes, stops, ends) =
    let whole : span (λ x. not (x == b'=')) (c ∷ name) ≡ (c ∷ name, []) =
      ap (span (λ x. not (x == b'='))) (sym (append-nil (c ∷ name)))
      ∙ span-append (λ x. not (x == b'=')) (c ∷ name) [] no_equals tt in
    let no_text : trim_lws [] ≡ [] = trim_lws-blank [] tt in
    elim (Bool-cases optional) [
      | inl flag ↦
          rw (name_value_pair, whole, no_text, flag, whole, trim_lws-fixes (c ∷ name) stops ends)
            refl
      | inr no_flag ↦ rw (name_value_pair, whole, no_flag) refl
    ]

name_value_pair-no_value :
    (optional strict : Bool) (name blanks : Bytes)
    → NoEquals name
    → All (λ c. is_lws c ≡ true) blanks
    → name_value_pair optional strict (name ++ b'=' ∷ blanks) ≡ none
unfolding name_value_pair skip_one
name_value_pair-no_value optional strict name blanks no_equals all =
    let e = at_equals-append name blanks no_equals in
    let blank = trim_lws-blank blanks all in
    elim (Bool-cases (end_of_input name)) [
      | inl h ↦ rw (name_value_pair, e, h) refl
      | inr h ↦ elim (Bool-cases (has_quote strict name)) [
        | inl k ↦ rw (name_value_pair, e, h, k) refl
        | inr k ↦ rw (name_value_pair, e, h, k, blank) refl
      ]
    ]

name_value_pair-quote_in_name :
    (optional strict : Bool) (a b s : Bytes)
    → NoEquals (a ++ b'"' ∷ b)
    → name_value_pair optional strict ((a ++ b'"' ∷ b) ++ b'=' ∷ s) ≡ none
unfolding name_value_pair
name_value_pair-quote_in_name optional strict a b s no_equals =
    let e = at_equals-append (a ++ b'"' ∷ b) s no_equals in
    let k = has_quote-inside strict a b in
    elim (Bool-cases (end_of_input (a ++ b'"' ∷ b))) [
      | inl h ↦ rw (name_value_pair, e, h) refl
      | inr h ↦ rw (name_value_pair, e, h, k) refl
    ]

name_value_pair-no_name :
    (optional strict : Bool) (s : Bytes) → name_value_pair optional strict (b'=' ∷ s) ≡ none
unfolding name_value_pair at_equals span
name_value_pair-no_name optional strict s = refl

name_value_pair-text_of :
    (optional strict : Bool) (w : Written)
    → IsWritten w
    → name_value_pair optional strict (text_of w) ≡ pair_of optional w
name_value_pair-text_of optional strict (quoted_pair name text) is_name =
    let trimmed = trim_lws-quoted text in
    name_value_pair-value optional strict name (quoted b'"' text) text is_name (rw trimmed refl)
      (ap (pair_value strict) trimmed ∙ pair_value-quoted strict text)
name_value_pair-text_of optional strict (plain_pair name []) (is_name, (ne, _, _, _)) =
    absurd (ne refl)
name_value_pair-text_of optional strict (plain_pair name (c ∷ value))
      (is_name, (_, plain, stops, ends)) =
    let trimmed = trim_lws-fixes (c ∷ value) stops ends in
    name_value_pair-value optional strict name (c ∷ value) (c ∷ value) is_name (rw trimmed refl)
      (ap (pair_value strict) trimmed ∙ pair_value-plain strict (c ∷ value) plain)
name_value_pair-text_of optional strict (lone_name name) is_name =
    name_value_pair-lone optional strict name is_name
name_value_pair-text_of optional strict (no_value name blanks) (no_equals, all) =
    name_value_pair-no_value optional strict name blanks no_equals all
name_value_pair-text_of optional strict (no_name s) h = name_value_pair-no_name optional strict s
name_value_pair-text_of optional strict (quote_in_name a b s) no_equals =
    name_value_pair-quote_in_name optional strict a b s no_equals

-- What a call of `NameValuePairsIterator::GetNext` makes of the next text between the delimiters,
-- if that is written in one of these ways, with strict quotes or lenient ones. A name with an
-- equals sign and a quoted-string behind it is found, with the text of the quoted-string without
-- its escapes; with a plain value, that is not empty, has no blanks at its ends and does not begin
-- with a quote mark, as it stands. A name alone is found, with no value, where values are optional.
-- Blanks alone behind the equals sign, nothing in front of it, or a double quote in front of it are
-- no pair. In a pair, the name is not empty and has no equals sign, no quote mark and no blanks at
-- its ends. The iterator stands behind the text of a pair, and `valid_` is cleared exactly where
-- there is no pair. The tokenizer has one delimiter and no option.
pub pairs_get_next-text_of :
    (d : ℕ) (t : PairsState) (w : Written) (rest : Bytes)
    → Delimited d t.props
    → quoted_values_next d t.props.values.quotes t.props.values.token_end ≡ some (text_of w, rest)
    → IsWritten w
    → (shown_pair (pairs_get_next t)
        ≡ elim (pair_of t.values_optional w) [ none ↦ none | some p ↦ some (p, rest) ])
      × ((pairs_get_next t).1.valid ≡ (t.valid && is_some (pair_of t.values_optional w)))
pairs_get_next-text_of d t w rest delimited next is_written =
    let (shown, is_valid) = pairs_get_next-name_value_pair d t delimited in
    let pair = name_value_pair-text_of t.values_optional t.strict_quotes w is_written in
    (
      shown
          ∙ ap (next_pair t.values_optional t.strict_quotes) next
          ∙ ap (λ o. elim o [ none ↦ none | some p ↦ some (p, rest) ]) pair,
      is_valid
          ∙ ap (λ o. t.valid && next_valid t.values_optional t.strict_quotes o) next
          ∙ ap (λ o. t.valid && is_some o) pair,
    )
