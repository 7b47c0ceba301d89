-- ===== src/HostPort.antt =====
-- c_src/utils.cc: `ParseHostAndPort`; `none` is `false`.
pub mod Sound
pub mod Complete
use elixir_sippet.Base.Int.{ℤ, negsuc}
use elixir_sippet.Base.{
  Bool, true, not, ◌&&◌, [], ◌∷◌, ◌++◌, Option, none, some, Bytes, ◌==◌, if◌then◌else◌,
}
use elixir_sippet.Ascii.{is_digit}
use elixir_sippet.Number.{string_to_int}
use elixir_sippet.Tokenizer.{span, skip_one, end_of_input}

unfoldable pub all_digits : Bytes → Bool
all_digits [] = true
all_digits (c ∷ s) = is_digit c && all_digits s

-- The port's digits, from `port_start` to `port_end`.
unfoldable pub port_number : Bytes → Option ℤ
unfolding string_to_int
port_number [] = some (negsuc 0)
port_number (c ∷ s) = if (string_to_int (c ∷ s)).0 then some (string_to_int (c ∷ s)).1 else none

-- From `host_end` on, with the text of the host.
unfoldable pub parse_port : Bytes → Bytes → Option (Bytes × ℤ)
unfolding port_number all_digits
parse_port host [] = some (host, negsuc 0)
parse_port host (c ∷ s) =
    if not (c == b':')
    then none
    else if not (all_digits s)
    then none
    else elim (port_number s) [ none ↦ none | some port ↦ some (host, port) ]

-- An IPv6 address: up to the first `]`.
unfoldable pub parse_bracketed : Bytes → Option (Bytes × ℤ)
unfolding span parse_port skip_one
parse_bracketed s =
    let (host, rest) = span (λ c. not (c == b']')) s in
    if end_of_input rest then none else parse_port (host ++ b']' ∷ []) (skip_one rest)

-- A host name or an IPv4 address: up to the first colon.
unfoldable pub parse_plain : Bytes → Option (Bytes × ℤ)
unfolding span parse_port
parse_plain s = let (host, rest) = span (λ c. not (c == b':')) s in parse_port host rest

unfoldable pub parse_host_and_port : Bytes → Option (Bytes × ℤ)
unfolding parse_bracketed parse_plain
parse_host_and_port [] = none
parse_host_and_port (c ∷ s) = if c == b'[' then parse_bracketed (c ∷ s) else parse_plain (c ∷ s)
