-- ===== src/Ascii.antt =====
-- c_src/utils.cc: the tests on single characters, and ASCII lower case. A `char` is a byte, a number
-- below 256; the code's comparisons of a signed `char` with ASCII constants answer alike.
pub mod Tokens
use elixir_sippet.Base.{
  ℕ, ◌+◌, ◌-◌, Bool, true, false, not, ◌&&◌, ◌||◌, [], ◌∷◌, map, Bytes, leb, ◌==◌, if◌then◌else◌,
}

-- `isdigit`
abbrev pub is_digit : ℕ → Bool
is_digit c = leb b'0' c && leb c b'9'

-- The space and the tab of `SIP_LWS`, as `StringPiece::find` looks them up.
abbrev pub sip_lws : Bytes
sip_lws = b' ' ∷ b'\t' ∷ []

-- `strchr` also finds the terminating NUL of its text.
unfoldable pub is_lws : ℕ → Bool
is_lws c = c == b' ' || c == b'\t' || c == 0

unfoldable pub is_quote : ℕ → Bool
is_quote c = c == b'"' || c == b'\''

unfoldable pub is_token_char : ℕ → Bool
is_token_char c = not (
    leb 0x80 c
    || leb c 0x1f
    || c == 0x7f
    || c == b'('
    || c == b')'
    || c == b'<'
    || c == b'>'
    || c == b'@'
    || c == b','
    || c == b';'
    || c == b':'
    || c == b'\\'
    || c == b'"'
    || c == b'/'
    || c == b'['
    || c == b']'
    || c == b'?'
    || c == b'='
    || c == b'{'
    || c == b'}'
    || c == b' '
    || c == b'\t')

-- The loop of `IsTokenImpl`.
unfoldable pub all_token_chars : Bytes → Bool
unfolding is_token_char
all_token_chars [] = true
all_token_chars (c ∷ s) = is_token_char c && all_token_chars s

unfoldable pub is_token : Bytes → Bool
unfolding all_token_chars
is_token [] = false
is_token (c ∷ s) = all_token_chars (c ∷ s)

unfoldable pub to_lower_ascii : ℕ → ℕ
to_lower_ascii c = if leb b'A' c && leb c b'Z' then c + (b'a' - b'A') else c

unfoldable pub lower_case : Bytes → Bytes
unfolding to_lower_ascii
lower_case = map to_lower_ascii

-- The sizes differ, or some character does.
unfoldable pub lower_case_equals_ascii : Bytes → Bytes → Bool
unfolding to_lower_ascii
lower_case_equals_ascii [] [] = true
lower_case_equals_ascii [] (y ∷ t) = false
lower_case_equals_ascii (x ∷ s) [] = false
lower_case_equals_ascii (x ∷ s) (y ∷ t) = to_lower_ascii x == y && lower_case_equals_ascii s t
