-- ===== src/Field/Contact/ReadBack.antt =====
-- c_src/parser.cc: `ParseContact` on contacts written from their parts.
use elixir_sippet.Ascii.{is_quote}
use elixir_sippet.Base.{
  ℕ, true, false, not, ◌||◌, [], ◌∷◌, ◌++◌, Bytes, All, ok, ◌≡◌, refl, arith, append_assoc, ◌==◌,
}
use elixir_sippet.Field.Contact.{quoted_contact, parse_contact}
use elixir_sippet.Field.Quoted.{scan_quoted-escape}
use elixir_sippet.Tokenizer.Span.{span-append}
use elixir_sippet.Tokenizer.{span, finds, skip, skip_lws, skip_to, skip_one}
use elixir_sippet.Unquote.RoundTrip.{escape, quoted, unquote-quoted}

skip_to-laquot : (s : Bytes) → (skip_to b'<' (b' ' ∷ b'<' ∷ s)).1 ≡ b'<' ∷ s
unfolding skip_to span
skip_to-laquot s = refl

skip_to-raquot :
    (address rest : Bytes)
    → All (λ c. (not (b'>' == c)) ≡ true) address
    → skip_to b'>' (address ++ b'>' ∷ rest) ≡ (address, b'>' ∷ rest)
unfolding skip_to
skip_to-raquot address rest h = span-append (λ c. not (b'>' == c)) address (b'>' ∷ rest) h refl

skip_lws-quote : (q : ℕ) (s : Bytes) → is_quote q ≡ true → skip_lws (q ∷ s) ≡ q ∷ s
unfolding skip_lws skip span finds is_quote
skip_lws-quote q s h = ground arith

quote_mark : (q : ℕ) → is_quote q ≡ true → (q == b'\\') ≡ false
unfolding is_quote
quote_mark q h = ground arith

quoted_contact_lem :
    (q : ℕ) (name address rest : Bytes)
    → is_quote q ≡ true
    → All (λ c. (not (is_quote c) || c == q) ≡ true) name
    → All (λ c. (not (b'>' == c)) ≡ true) address
    → quoted_contact (q ∷ (escape q name ++ q ∷ b' ' ∷ b'<' ∷ (address ++ b'>' ∷ rest)))
      ≡ ok (record { display_name = name; address = address; rest = b'>' ∷ rest })
unfolding quoted_contact skip_one
quoted_contact_lem q name address rest hq hn ha =
    let tail = b' ' ∷ b'<' ∷ (address ++ b'>' ∷ rest) in
    rw
      (
        scan_quoted-escape is_quote q name tail hq (quote_mark q hq) hn,
        skip_to-laquot (address ++ b'>' ∷ rest),
        skip_to-raquot address rest ha,
        unquote-quoted q name hq,
      )
      refl

-- A contact with a quoted display name and an address in angle brackets is read back, the name
-- without its escapes: the name has no quote mark but the one around it, and the address has no
-- closing bracket. The tokenizer stays at the closing bracket.
pub parse_contact-quoted :
    (q : ℕ) (name address rest : Bytes)
    → is_quote q ≡ true
    → All (λ c. (not (is_quote c) || c == q) ≡ true) name
    → All (λ c. (not (b'>' == c)) ≡ true) address
    → parse_contact (quoted q name ++ b' ' ∷ b'<' ∷ (address ++ b'>' ∷ rest))
      ≡ ok (record { display_name = name; address = address; rest = b'>' ∷ rest })
unfolding parse_contact
parse_contact-quoted q name address rest hq hn ha =
    let tail = b' ' ∷ b'<' ∷ (address ++ b'>' ∷ rest) in
    let start = skip_lws-quote q (escape q name ++ q ∷ tail) hq in
    rw (append_assoc (escape q name) (q ∷ []) tail, parse_contact, start, hq)
      (quoted_contact_lem q name address rest hq hn ha)
