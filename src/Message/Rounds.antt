-- ===== src/Message/Rounds.antt =====
-- c_src/parser.cc: the loops of `AssembleRawHeaders`, `GetNext` and `Parse` need no more rounds than the
-- model gives them.
use elixir_sippet.Base.Yields.{while_next-Yields}
use elixir_sippet.Base.{
  ℕ, ◌<◌, [], Bytes, length, while_next, rounds, Result, ◌>>=◌, ◌≡◌, sym, ◌∙◌, arith,
}
use elixir_sippet.Iterators.Headers.{HeaderLine, headers_next}
use elixir_sippet.Iterators.Split.{headers_next-Yields}
use elixir_sippet.Message.Assemble.Join.{assemble-join}
use elixir_sippet.Message.Assemble.{assemble, assemble_raw_headers}
use elixir_sippet.Message.Header.{parse_header}
use elixir_sippet.Message.{Headers, add_header, parse_headers}
use elixir_sippet.Value.{Runtime}

-- Any number of rounds above the length of the text gives what `AssembleRawHeaders` gives: its loop has
-- come to an end by then, and has not been cut off.
assemble-rounds : (n : ℕ) (s : Bytes) → length s < n → assemble n s [] ≡ assemble_raw_headers s
unfolding assemble_raw_headers
assemble-rounds n s h = assemble-join n s [] h ∙ sym (assemble-join (rounds s) s [] (omega arith))

abbrev body : Runtime → HeaderLine → Headers → Result Headers
body vm h headers = parse_header vm h.name h.values >>= λ header. add_header header headers

-- Any number of rounds above the length of the text gives what the loop of `Parse` over the headers
-- gives: the loop has come to an end by then, and has not been cut off.
parse_headers-rounds :
    (vm : Runtime) (n : ℕ) (s : Bytes)
    → length s < n
    → while_next headers_next
        (λ h headers. parse_header vm h.name h.values >>= λ header. add_header header headers)
        n
        s
        []
      ≡ parse_headers vm s
unfolding parse_headers
parse_headers-rounds vm n s h =
    while_next-Yields headers_next (body vm) n [] h (headers_next-Yields s)
    ∙ sym (
        while_next-Yields headers_next (body vm) (rounds s) [] (omega arith)
          (headers_next-Yields s))
