-- ===== src/Field.antt =====
-- c_src/parser.cc: the functions that parse one field at a tokenizer. Each takes the text from
-- `tok->current()` on, and returns its value and the text that it leaves there.
pub mod Comment
pub mod Quoted
pub mod Params
pub mod Contact
pub mod Via
use elixir_sippet.Base.{
  ℕ, suc, Bool, not, ◌&&◌, [], ◌∷◌, Option, none, some, Bytes, codes, Result, ok, err, ◌==◌,
  if◌then◌else◌,
}
use elixir_sippet.Ascii.{sip_lws, is_token, lower_case}
use elixir_sippet.Tokenizer.{skip_lws, skip_not_in, skip_to, skip_one, end_of_input}
use elixir_sippet.Trim.{trim_lws}

-- `SIP_LWS ";"`
abbrev pub lws_or_semicolon : Bytes
lws_or_semicolon = b' ' ∷ b'\t' ∷ b';' ∷ []

-- `ParseToken`
unfoldable pub parse_token : Bytes → Result (Bytes × Bytes)
parse_token tok =
    let start = skip_lws tok in
    if end_of_input start
    then err (codes "empty_value")
    else ok (skip_not_in lws_or_semicolon start)

-- `ParseTypeSubtype`, behind the type.
unfoldable pub parse_subtype : Bytes → Bytes → Result (Option (Bytes × Bytes) × Bytes)
parse_subtype type tok =
    let start = skip_lws (skip_one (skip_to b'/' tok).1) in
    let (subtype, rest) = skip_not_in lws_or_semicolon start in
    if end_of_input start
    then err (codes "missing_subtype")
    else if not (is_token subtype)
    then err (codes "invalid_token")
    else ok (some (lower_case type, lower_case subtype), rest)

-- `ParseTypeSubtype`; an empty header gives the empty tuple, `none`.
unfoldable pub parse_type_subtype : Bytes → Result (Option (Bytes × Bytes) × Bytes)
parse_type_subtype tok =
    let start = skip_lws tok in
    let (type, rest) = skip_not_in (b' ' ∷ b'\t' ∷ b'/' ∷ []) start in
    if end_of_input start
    then ok (none, start)
    else if not (is_token type)
    then err (codes "invalid_token")
    else parse_subtype type rest

-- `ParseAuthScheme`
unfoldable pub parse_auth_scheme : Bytes → Result (Bytes × Bytes)
parse_auth_scheme tok =
    let start = skip_lws tok in
    if end_of_input start then err (codes "missing_auth_scheme") else ok (skip_not_in sip_lws start)

-- The loop of `ParseComment`, with `lparen` parentheses open: the comment and the text behind its
-- closing parenthesis.
unfoldable pub close_paren : ℕ → Bytes → Option (Bytes × Bytes)
close_paren lparen [] = none
close_paren lparen (c ∷ s) =
    let depth =
      if c == b')' then Prim.Native.Nat.pred lparen else if c == b'(' then suc lparen else lparen in
    let rest = close_paren depth s in
    if c == b')' && depth == 0
    then some ([], s)
    else elim rest [ none ↦ none | some (comment, left) ↦ some (c ∷ comment, left) ]

-- `ParseComment`
unfoldable pub parse_comment : Bytes → Result (Bytes × Bytes)
parse_comment tok = elim (close_paren 1 (skip_one (skip_to b'(' tok).1)) [
  | none ↦ err (codes "invalid_comment")
  | some (comment, rest) ↦ ok (trim_lws comment, rest)
]

-- `ParseUri`
unfoldable pub parse_uri : Bytes → Result (Bytes × Bytes)
parse_uri tok =
    let open_quot = (skip_to b'<' tok).1 in
    let (uri, close_quot) = skip_to b'>' (skip_one open_quot) in
    if end_of_input open_quot
    then err (codes "invalid_uri")
    else if end_of_input close_quot
    then err (codes "unclosed_laquot")
    else ok (uri, skip_one close_quot)

-- `for (; !tok->EndOfInput(); tok->Skip())` inside a quoted string: the text before the closing
-- character, and the text from it on. `escaped` is true behind a backslash, which skips one more.
unfoldable pub scan_quoted : (ℕ → Bool) → Bool → Bytes → Bytes × Bytes
scan_quoted closes escaped [] = ([], [])
scan_quoted closes escaped (c ∷ s) =
    let (text, rest) = scan_quoted closes (not escaped && c == b'\\') s in
    if not escaped && not (c == b'\\') && closes c then ([], c ∷ s) else (c ∷ text, rest)
