-- ===== src/Field/Contact.antt =====
-- c_src/parser.cc: `ParseContact` and `ParseStar`.
pub mod ReadBack
use elixir_sippet.Base.{
  Bool, false, not, [], ◌∷◌, ◌++◌, Bytes, codes, Result, ok, err, ◌==◌, if◌then◌else◌,
}
use elixir_sippet.Ascii.{is_quote, is_token}
use elixir_sippet.Field.{lws_or_semicolon, scan_quoted}
use elixir_sippet.StartLine.{peek}
use elixir_sippet.Tokenizer.{skip_lws, skip_not_in, skip_to, skip_one, end_of_input}
use elixir_sippet.Trim.{trim_lws}
use elixir_sippet.Unquote.{unquote}

-- The display name, the address, and the text ahead of the tokenizer.
pub record ContactField : Type 0 where
  pub display_name : Bytes
  pub address : Bytes
  pub rest : Bytes

-- `contact-param = quoted-string LAQUOT addr-spec RAQUOT`, from the quote mark on. The tokenizer stays
-- at the right angle bracket.
unfoldable pub quoted_contact : Bytes → Result ContactField
quoted_contact start =
    let (name, close) = scan_quoted is_quote false (skip_one start) in
    let display_name = peek start ∷ (name ++ peek close ∷ []) in
    let laquot = (skip_to b'<' (skip_one close)).1 in
    let (address, raquot) = skip_to b'>' (skip_one laquot) in
    if end_of_input close
    then err (codes "unclosed_qstring")
    else if end_of_input laquot
    then err (codes "missing_address")
    else if end_of_input raquot
    then err (codes "unclosed_laquot")
    else ok (record { display_name = unquote display_name; address = address; rest = raquot })

-- The two forms with no quoted name.
unfoldable pub plain_contact : Bytes → Result ContactField
plain_contact start =
    let (name, laquot) = skip_to b'<' start in
    let (address, raquot) = skip_to b'>' (skip_one laquot) in
    let (bare, rest) = skip_not_in lws_or_semicolon start in
    if not (end_of_input laquot)
    then if end_of_input raquot
      then err (codes "unclosed_laquot")
      else ok (record {
        display_name = unquote (trim_lws name);
        address = address;
        rest = skip_one raquot;
      })
    else if is_token (peek start ∷ [])
    then ok (record { display_name = unquote []; address = bare; rest = rest })
    else err (codes "invalid_char_found")

-- `ParseContact`
unfoldable pub parse_contact : Bytes → Result ContactField
parse_contact tok =
    let start = skip_lws tok in
    if is_quote (peek start) then quoted_contact start else plain_contact start

-- `ParseStar`
unfoldable pub parse_star : Bytes → Bool
parse_star tok = peek (skip_lws tok) == b'*'
