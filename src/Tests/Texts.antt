-- ===== src/Tests/Texts.antt =====
-- c_src/utils.cc, c_src/string_tokenizer.h and c_src/parser.cc: the theorems on parts of a message at
-- concrete texts.
use mathlib.Core.List.{cons-ne-nil}
use elixir_sippet.Base.Int.{pos, negsuc}
use elixir_sippet.Base.Yields.{Yields}
use elixir_sippet.Base.{◌++◌, true, some, Bytes, codes, ok, ◌≡◌, ◌↔◌, refl, arith}
use elixir_sippet.HostPort.Complete.{parse_host_and_port_plain, parse_host_and_port_bracketed}
use elixir_sippet.HostPort.Sound.{IsHost, IsPort, number, parse_host_and_port_sound}
use elixir_sippet.HostPort.{parse_host_and_port}
use elixir_sippet.Number.Decimal.{IsDecimal, string_to_int_iff}
use elixir_sippet.Number.{string_to_int}
use elixir_sippet.StartLine.RoundTrip.{parse_request_line-parts, parse_status_line-parts}
use elixir_sippet.StartLine.{
  status_line, request_line, existing_atom_or_string, parse_status_line, parse_request_line,
}
use elixir_sippet.StringTokenizer.Modes.{outside}
use elixir_sippet.StringTokenizer.Fields.{fields, tokens, full_get_next-Yields}
use elixir_sippet.StringTokenizer.{full_get_next}
use elixir_sippet.Tests.{vm}

string_to_int_iff_example :
    (string_to_int (codes " -42") ≡ (true, negsuc 41)) ↔ IsDecimal (codes " -42") (negsuc 41)
string_to_int_iff_example = string_to_int_iff (codes " -42") (negsuc 41)

IsPort-5060 : IsPort (codes ":5060") (pos 5060)
IsPort-5060 = number (cons-ne-nil b'5' (codes "060")) (ground arith) (omega arith)

parse_host_and_port_plain_example :
    parse_host_and_port (codes "a.b:5060") ≡ some (codes "a.b", pos 5060)
parse_host_and_port_plain_example =
    parse_host_and_port_plain b'a' (codes ".b") (codes ":5060") (pos 5060) (omega arith)
      (ground arith) IsPort-5060

parse_host_and_port_bracketed_example :
    parse_host_and_port (codes "[::1]:5060") ≡ some (codes "[::1]", pos 5060)
parse_host_and_port_bracketed_example =
    parse_host_and_port_bracketed (codes "::1") (codes ":5060") (pos 5060) (ground arith)
      IsPort-5060

parse_host_and_port_sound_example :
    (rest : Bytes) × (codes "a.b:5060" ≡ codes "a.b" ++ rest)
    × IsHost (codes "a.b")
    × IsPort rest (pos 5060)
parse_host_and_port_sound_example =
    parse_host_and_port_sound (codes "a.b:5060") (codes "a.b") (pos 5060)
      parse_host_and_port_plain_example

parse_request_line-parts_example :
    parse_request_line vm (codes "INVITE sip:b SIP/2.0")
    ≡ ok (request_line (existing_atom_or_string vm (codes "INVITE")) (codes "sip:b") (2, 0))
parse_request_line-parts_example =
    parse_request_line-parts vm b'I' (codes "NVITE") b's' (codes "ip:b") 2 0 refl (ground arith)
      (ground arith) (omega arith) (omega arith)

parse_status_line-parts_example :
    parse_status_line (codes "SIP/2.0 404 Not Found")
    ≡ ok (status_line (2, 0) (pos 404) (codes "Not Found"))
parse_status_line-parts_example =
    parse_status_line-parts 2 0 b'4' (codes "04") b'N' (codes "ot Found") (omega arith)
      (omega arith) (ground arith) (omega arith) refl refl

full_get_next-Yields_example :
    Yields
      (full_get_next (codes ",") (codes "\""))
      (codes "a,\"b,c\"")
      (tokens (fields (codes ",") (codes "\"") outside (codes "a,\"b,c\"")))
full_get_next-Yields_example = full_get_next-Yields (codes ",") (codes "\"") (codes "a,\"b,c\"")
