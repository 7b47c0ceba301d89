-- ===== src/Message/Write/Headers.antt =====
-- c_src/utils.cc: `HeadersIterator` on header lines that are written from their parts.
use elixir_sippet.Ascii.Tokens.{is_token-All}
use elixir_sippet.Ascii.{is_lws, is_token_char, is_token}
use elixir_sippet.Base.Yields.{filter_map}
use elixir_sippet.Base.{
  ℕ, true, false, not, List, [], ◌∷◌, ◌++◌, map, some, Bytes, All, All-append, All-map, ◌≡◌, refl,
  ap, ◌∙◌, arith, ◌==◌,
}
use elixir_sippet.Iterators.Headers.{HeaderLine, header_line, starts_badly, line_breaks}
use elixir_sippet.Iterators.Split.{split_headers}
use elixir_sippet.Message.Assemble.{is_break}
use elixir_sippet.Message.Write.Lines.{OneLine, Unfolded}
use elixir_sippet.Message.Write.{lines_text, header_text}
use elixir_sippet.StringTokenizer.Cut.{Uncut, fields-append}
use elixir_sippet.StringTokenizer.Modes.{outside}
use elixir_sippet.StringTokenizer.Fields.{fields, tokens}
use elixir_sippet.Tokenizer.Span.{StopsAt, span-append}
use elixir_sippet.Tokenizer.{finds, span, skip_one}
use elixir_sippet.Trim.Trimmed.{EndsOutside, trim_lws-fixes}
use elixir_sippet.Trim.{trim_lws, trim_left}

-- A name that is a token, and values on one line that neither start nor end with a blank.
abbrev pub IsWritten : HeaderLine → Type 0
IsWritten h =
    (is_token h.name ≡ true)
    × OneLine h.values
    × StopsAt is_lws h.values
    × EndsOutside is_lws h.values

-- What a character of a name is not.
abbrev NameChar : ℕ → Type 0
NameChar c = (not (c == b':') ≡ true) × (is_lws c ≡ false) × (not (is_break c) ≡ true)

token_char-NameChar : (c : ℕ) → is_token_char c ≡ true → NameChar c
unfolding is_token_char is_lws
token_char-NameChar c h = ground arith

token-NameChar : (s : Bytes) → is_token s ≡ true → All NameChar s
token-NameChar s h = All-map token_char-NameChar s (is_token-All s h)

EndsOutside-NameChar : (s : Bytes) → All NameChar s → EndsOutside is_lws s
EndsOutside-NameChar [] h = tt
EndsOutside-NameChar (c ∷ []) ((_, h, _), _) = h
EndsOutside-NameChar (c ∷ d ∷ s) (_, h) = EndsOutside-NameChar (d ∷ s) h

trim_values : (v : Bytes) → StopsAt is_lws v → EndsOutside is_lws v → trim_lws (b' ' ∷ v) ≡ v
unfolding trim_lws
trim_values v h k = blank ∙ trim_lws-fixes v h k
  where
    blank : trim_lws (b' ' ∷ v) ≡ trim_lws v
    blank = unfold trim_lws trim_left span is_lws in refl

header_line_parts :
    (c : ℕ) (name values : Bytes)
    → is_token (c ∷ name) ≡ true
    → StopsAt is_lws values
    → EndsOutside is_lws values
    → header_line ((c ∷ name) ++ b':' ∷ b' ' ∷ values)
      ≡ some (record { name = c ∷ name; values = values })
header_line_parts c name values token stops ends =
    let plain = token-NameChar (c ∷ name) token in
    let first =
      span-append (λ x. not (x == b':')) (c ∷ name) (b':' ∷ b' ' ∷ values)
        (All-map (λ x (h : NameChar x). h.0) (c ∷ name) plain) refl in
    unfold header_line starts_badly skip_one in
    rw
      (
        first,
        trim_lws-fixes (c ∷ name) plain.0.1 (EndsOutside-NameChar (c ∷ name) plain),
        plain.0.1,
        token,
        trim_values values stops ends,
      )
      refl

-- A header that is written with its name, a colon, a space and its values is read back.
header_line-header_text : (h : HeaderLine) → IsWritten h → header_line (header_text h) ≡ some h
header_line-header_text h w = parts h.name h.values w
  where
    parts :
        (name values : Bytes)
        → IsWritten (record { name = name; values = values })
        → header_line (name ++ b':' ∷ b' ' ∷ values)
          ≡ some (record { name = name; values = values })
    parts [] values (token, _, _, _) = absurd (unfold is_token in cc)
    parts (c ∷ name) values (token, _, stops, ends) =
        header_line_parts c name values token stops ends

header_text-Unfolded : (h : HeaderLine) → IsWritten h → Unfolded (header_text h)
header_text-Unfolded h (token, one, _, _) = parts h.name h.values token one
  where
    parts :
        (name values : Bytes)
        → is_token name ≡ true
        → OneLine values
        → Unfolded (name ++ b':' ∷ b' ' ∷ values)
    parts [] values token one = absurd (unfold is_token in cc)
    parts (c ∷ name) values token one =
        let plain = token-NameChar (c ∷ name) token in
        let line =
          All-append (λ x. (not (is_break x)) ≡ true) (c ∷ name) (b':' ∷ b' ' ∷ values)
            (All-map (λ x (h : NameChar x). h.2) (c ∷ name) plain) (refl, (refl, one)) in
        (plain.0.1, line)

OneLine-Uncut : (l : Bytes) → OneLine l → Uncut line_breaks [] l
unfolding finds
OneLine-Uncut [] h = tt
OneLine-Uncut (c ∷ l) (h, hs) = (ground arith, OneLine-Uncut l hs)

tokens_lines :
    (ls : List Bytes)
    → All Unfolded ls
    → tokens (fields line_breaks [] outside (lines_text ls)) ≡ ls
tokens_lines [] h = unfold fields in refl
tokens_lines ([] ∷ ls) (h, hs) = absurd h
tokens_lines ((c ∷ l) ∷ ls) (h, hs) =
    rw
      (fields-append line_breaks [] (c ∷ l) b'\n' (lines_text ls) (OneLine-Uncut (c ∷ l) h.1)
        (unfold finds in refl))
      (ap (λ us. (c ∷ l) ∷ us) (tokens_lines ls hs))

pub All-Unfolded : (hs : List HeaderLine) → All IsWritten hs → All Unfolded (map header_text hs)
All-Unfolded [] h = tt
All-Unfolded (x ∷ hs) (h, k) = (header_text-Unfolded x h, All-Unfolded hs k)

filter_written :
    (hs : List HeaderLine) → All IsWritten hs → filter_map header_line (map header_text hs) ≡ hs
filter_written [] h = refl
filter_written (x ∷ hs) (h, k) =
    rw (filter_map, header_line-header_text x h) (ap (λ us. x ∷ us) (filter_written hs k))

-- Headers written on a line each are found again, in order.
pub split_headers-lines :
    (hs : List HeaderLine) → All IsWritten hs → split_headers (lines_text (map header_text hs)) ≡ hs
split_headers-lines hs h =
    ap (filter_map header_line) (tokens_lines (map header_text hs) (All-Unfolded hs h))
    ∙ filter_written hs h
