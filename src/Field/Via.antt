-- ===== src/Field/Via.antt =====
-- c_src/parser.cc: `ParseVia` and `ParseWarning`.
pub mod ReadBack
pub mod Warning
use elixir_sippet.Base.Int.{ℤ, pos, negsuc, ltb_ℤ, eqb_ℤ}
use elixir_sippet.Base.{
  Option, ℕ, ◌-◌, false, not, ◌||◌, [], ◌∷◌, ◌++◌, none, some, Bytes, codes, Result, ok, err, ◌>>=◌,
  equal, length, ◌==◌, if◌then◌else◌,
}
use elixir_sippet.Ascii.{sip_lws, lower_case}
use elixir_sippet.Field.{scan_quoted}
use elixir_sippet.HostPort.{parse_host_and_port}
use elixir_sippet.Number.{string_to_int}
use elixir_sippet.StartLine.{peek, has_prefix, parse_version, existing_atom_or_string}
use elixir_sippet.Tokenizer.{first_n, skip_lws, skip_not_in, skip_to, skip_one, end_of_input}
use elixir_sippet.Trim.{trim_lws}
use elixir_sippet.Unquote.{unquote}
use elixir_sippet.Value.{Name, Runtime}

pub record ViaField : Type 0 where
  pub version : ℕ × ℕ
  pub protocol : Name
  pub host : Bytes
  pub port : ℤ
  pub rest : Bytes

-- The port where the header names none.
unfoldable pub default_port : Bytes → ℤ
default_port protocol =
    if equal protocol (codes "udp") || equal protocol (codes "tcp")
    then pos 5060
    else if equal protocol (codes "tls")
    then pos 5061
    else pos 0

-- `host.substr(1, host.size() - 2)` of a host in brackets.
unfoldable pub strip_brackets : Bytes → Bytes
strip_brackets [] = []
strip_brackets (c ∷ s) = if c == b'[' then first_n (length s - 1) s else c ∷ s

-- The result for the host and the port that were read, if they were.
unfoldable pub sent_by : Runtime → ℕ × ℕ → Bytes → Bytes → Option (Bytes × ℤ) → Result ViaField
sent_by vm version protocol rest none = err (codes "invalid_sentby")
sent_by vm version protocol rest (some (host, port)) = ok (record {
  version = version;
  protocol = existing_atom_or_string vm protocol;
  host = strip_brackets host;
  port = if eqb_ℤ port (negsuc 0) then default_port protocol else port;
  rest = rest;
})

-- `ParseVia`, from the sent-protocol on.
unfoldable pub parse_sent_by : Runtime → ℕ × ℕ → Bytes → Result ViaField
parse_sent_by vm version start =
    let (sent, after) = skip_not_in sip_lws start in
    let sentby_start = skip_lws after in
    let (sentby, rest) = skip_to b';' sentby_start in
    let sentby_string = trim_lws sentby in
    if end_of_input start
    then err (codes "missing_sent_protocol")
    else if end_of_input sentby_start
    then err (codes "missing_sentby")
    else if end_of_input sentby_string
    then err (codes "missing_sentby")
    else sent_by vm version (lower_case sent) rest (parse_host_and_port sentby_string)

-- Behind the first slash: the slash and the text up to the next one go to the version.
unfoldable pub via_version_from : Bytes × Bytes → Bytes × Bytes
via_version_from (name, []) = (name, [])
via_version_from (name, slash ∷ s) =
    let (number, rest) = skip_to b'/' s in (name ++ slash ∷ number, rest)

-- The text of the version, from `version_start` to the second slash, and the text from there on.
unfoldable pub via_version : Bytes → Bytes × Bytes
via_version start = via_version_from (skip_to b'/' start)

-- `ParseVia`
unfoldable pub parse_via : Runtime → Bytes → Result ViaField
parse_via vm tok =
    let start = skip_lws tok in
    let (version_text, rest) = via_version start in
    if not (has_prefix (codes "sip") start) then err (codes "unknown_version") else (do
      version ← parse_version version_text
      parse_sent_by vm version (skip_lws (skip_one rest)))

pub record WarningField : Type 0 where
  pub code : ℤ
  pub agent : Bytes
  pub text : Bytes

-- `ParseWarning`, from the quoted text on.
unfoldable pub parse_warn_text : ℤ → Bytes → Bytes → Result WarningField
parse_warn_text code agent start =
    let (text, close) = scan_quoted (λ c. c == b'"') false (skip_one start) in
    if end_of_input start
    then err (codes "missing_warn_text")
    else if not (peek start == b'"')
    then err (codes "invalid_warn_text")
    else if end_of_input close
    then err (codes "unclosed_qstring")
    else ok (record {
      code = code;
      agent = agent;
      text = unquote (peek start ∷ (text ++ peek close ∷ []));
    })

-- `ParseWarning`
unfoldable pub parse_warning : Bytes → Result WarningField
parse_warning tok =
    let start = skip_lws tok in
    let (code_string, after) = skip_not_in sip_lws start in
    let (valid, code) = string_to_int code_string in
    let agent_start = skip_lws after in
    let (agent, rest) = skip_not_in sip_lws agent_start in
    if end_of_input start
    then err (codes "empty_input")
    else if not valid || ltb_ℤ code (pos 100) || ltb_ℤ (pos 999) code
    then err (codes "invalid_code")
    else if end_of_input agent_start
    then err (codes "empty_warn_agent")
    else parse_warn_text code agent (skip_lws rest)
