-- ===== src/Format/ReadBack.antt =====
-- c_src/parser.cc: values of headers that are written from their parts, with their parameters.
use mathlib.Core.List.{cons-ne-nil}
use elixir_sippet.Ascii.{is_lws, is_quote, sip_lws, lower_case}
use elixir_sippet.Base.Int.{ℤ, pos, negsuc, eqb_ℤ}
use elixir_sippet.Base.{
  ℕ, ◌≤◌, true, not, ◌||◌, List, [], ◌∷◌, ◌++◌, map, append-nil, traverse, some, Bytes, All, ok,
  ◌≡◌, refl, sym, ap, ◌∙◌, arith, ◌==◌, if◌then◌else◌,
}
use elixir_sippet.Field.Contact.ReadBack.{parse_contact-quoted}
use elixir_sippet.Field.Params.ReadBack.{
  param_text, IsParam, DistinctNames, parse_parameters-param_text,
}
use elixir_sippet.Field.{lws_or_semicolon, parse_token}
use elixir_sippet.Format.Collect.{collect_items-traverse}
use elixir_sippet.Format.Single.{
  single_token, single_token_params, single_contact_params, parse_cseq,
}
use elixir_sippet.Format.{multiple_tokens, via_params}
use elixir_sippet.Field.Via.ReadBack.{parse_via-parts}
use elixir_sippet.Field.Via.{strip_brackets, default_port}
use elixir_sippet.HostPort.{parse_host_and_port}
use elixir_sippet.StartLine.RoundTrip.{version_text}
use elixir_sippet.Trim.Trimmed.{EndsOutside}
use elixir_sippet.Iterators.Join.{join_values, IsPlain, split_values-join_values}
use elixir_sippet.Number.Decimal.{IsDigit, decimal, unsigned, string_to_int_iff}
use elixir_sippet.StartLine.{existing_atom_or_string}
use elixir_sippet.Tokenizer.Span.{StopsAt, span-append}
use elixir_sippet.Tokenizer.Words.{
  NoLws, digits-NoLws, skip_lws-NoLws, skip_lws-space, skip_not_in-NoLws, skip_not_in_end,
}
use elixir_sippet.Tokenizer.{finds, span, skip_lws, skip_not_in}
use elixir_sippet.Unquote.RoundTrip.{quoted}
use elixir_sippet.Value.{binary, with_params, contact, cseq, via, Params, Runtime}

-- The parameters, each behind a semicolon.
abbrev pub params_text : Params → Bytes
params_text ps = b';' ∷ join_values b';' (map param_text ps)

-- A token in front of a semicolon.
parse_token_word :
    (c : ℕ) (token rest : Bytes)
    → All (λ x. not (finds lws_or_semicolon x) ≡ true) (c ∷ token)
    → parse_token ((c ∷ token) ++ b';' ∷ rest) ≡ ok (c ∷ token, b';' ∷ rest)
unfolding parse_token skip_not_in
parse_token_word c token rest h =
    let start : skip_lws (c ∷ (token ++ b';' ∷ rest)) ≡ c ∷ (token ++ b';' ∷ rest) =
      skip_lws-NoLws c (token ++ b';' ∷ rest) (unfold finds in ground arith) in
    rw
      (
        start,
        span-append (λ x. not (finds lws_or_semicolon x)) (c ∷ token) (b';' ∷ rest) h
            (unfold finds in refl),
      )
      refl

-- A token with parameters: the token is not empty and holds no blank and no semicolon.
single_token_params-text :
    (c : ℕ) (token : Bytes) (ps : Params)
    → All (λ x. not (finds lws_or_semicolon x) ≡ true) (c ∷ token)
    → All IsParam ps
    → DistinctNames ps
    → single_token_params ((c ∷ token) ++ params_text ps) ≡ ok (with_params (c ∷ token) ps)
unfolding single_token_params
single_token_params-text c token ps t h d =
    rw
      (
        parse_token_word c token (join_values b';' (map param_text ps)) t,
        parse_parameters-param_text [] ps tt h d,
      )
      refl

-- A contact with a quoted display name, an address in angle brackets and parameters is read back,
-- the name without its escapes. The name has no quote mark but the one around it, and the address
-- no closing bracket. A parameter has a name in lower case, not empty and without an equals sign,
-- and no name stands twice; no name or value of a parameter has a semicolon, a quote mark, or a
-- blank at an end.
pub single_contact_params-text :
    (q : ℕ) (name address : Bytes) (ps : Params)
    → is_quote q ≡ true
    → All (λ c. (not (is_quote c) || c == q) ≡ true) name
    → All (λ c. (not (b'>' == c)) ≡ true) address
    → All IsParam ps
    → DistinctNames ps
    → single_contact_params (quoted q name ++ b' ' ∷ b'<' ∷ (address ++ b'>' ∷ params_text ps))
      ≡ ok (contact name address ps)
unfolding single_contact_params
single_contact_params-text q name address ps hq hn ha h d =
    rw
      (
        parse_contact-quoted q name address (params_text ps) hq hn ha,
        parse_parameters-param_text (b'>' ∷ []) ps (refl, tt) h d,
      )
      refl

-- A sequence number and a method.
parse_cseq-text :
    (vm : Runtime) (n : ℕ) (digits : Bytes) (c : ℕ) (method : Bytes)
    → All IsDigit (n ∷ digits)
    → decimal 0 (n ∷ digits) ≤ 2147483647
    → All (λ x. not (finds sip_lws x) ≡ true) (c ∷ method)
    → parse_cseq vm ((n ∷ digits) ++ b' ' ∷ c ∷ method)
      ≡ ok (cseq (pos (decimal 0 (n ∷ digits))) (existing_atom_or_string vm (c ∷ method)))
unfolding parse_cseq
parse_cseq-text vm n digits c method hd le hm =
    let number = n ∷ digits in
    let word = digits-NoLws number hd in
    let read =
      (string_to_int_iff number (pos (decimal 0 number))).1
        (unsigned (cons-ne-nil n digits, hd, le, refl)) in
    rw
      (
        skip_lws-NoLws n (digits ++ b' ' ∷ c ∷ method) word.0,
        skip_not_in-NoLws number (c ∷ method) word,
        read,
        skip_lws-space c method hm.0,
        skip_not_in_end (c ∷ method) hm,
      )
      refl

-- No blank and no semicolon.
abbrev IsTokenText : Bytes → Type 0
IsTokenText v = All (λ x. not (finds lws_or_semicolon x) ≡ true) v

single_token-word : (v : Bytes) → IsPlain b',' v → IsTokenText v → single_token v ≡ ok (binary v)
single_token-word [] (ne, _, _, _) t = absurd (ne refl)
single_token-word (c ∷ v) p t =
    let start : skip_lws (c ∷ v) ≡ c ∷ v = skip_lws-NoLws c v (unfold finds in ground arith) in
    let word = λ (x : ℕ). not (finds lws_or_semicolon x) in
    let taken : skip_not_in lws_or_semicolon (c ∷ v) ≡ (c ∷ v, []) =
      unfold skip_not_in in
      ap (span word) (sym (append-nil (c ∷ v))) ∙ span-append word (c ∷ v) [] t tt in
    unfold single_token parse_token in rw (start, taken) refl

traverse-words :
    (vs : List Bytes)
    → All (IsPlain b',') vs
    → All IsTokenText vs
    → traverse single_token vs ≡ ok (map binary vs)
traverse-words [] h t = refl
traverse-words (v ∷ vs) (h, hs) (t, ts) = rw (single_token-word v h t, traverse-words vs hs ts) refl

-- Tokens that are written with commas between them are read back in order, if none is empty, none
-- starts or ends with a blank, and none holds a space, a tab, a comma, a semicolon or a quote mark.
multiple_tokens-join_values :
    (vs : List Bytes)
    → All (IsPlain b',') vs
    → All IsTokenText vs
    → multiple_tokens (join_values b',' vs) ≡ ok (map binary vs)
unfolding multiple_tokens
multiple_tokens-join_values vs h t =
    collect_items-traverse single_token (join_values b',' vs)
    ∙ ap (traverse single_token) (split_values-join_values b',' vs h)
    ∙ traverse-words vs h t

-- A Via value with a version of single digits, a slash, a protocol, a space, a sent-by and
-- parameters is read back, where the protocol is not empty and holds no space and no tab, and the
-- sent-by is not empty, holds no semicolon, neither starts nor ends with a blank, and is accepted
-- by `ParseHostAndPort`: the protocol in lower case as `existing_atom_or_string` takes it, the host
-- without brackets, and the port, or the protocol's where there is none. The parameters have names
-- in lower case that are not empty and have no equals sign, no name twice, and no semicolon, quote
-- mark, or blank at an end.
pub via_params-text :
    (vm : Runtime) (a b c : ℕ) (protocol : Bytes) (d : ℕ) (sentby host : Bytes) (port : ℤ)
    (ps : Params)
    → a ≤ 9
    → b ≤ 9
    → NoLws (c ∷ protocol)
    → not (finds sip_lws d) ≡ true
    → All (λ x. (not (b';' == x)) ≡ true) (d ∷ sentby)
    → StopsAt is_lws (d ∷ sentby)
    → EndsOutside is_lws (d ∷ sentby)
    → parse_host_and_port (d ∷ sentby) ≡ some (host, port)
    → All IsParam ps
    → DistinctNames ps
    → via_params vm
        (version_text a b ++ b'/' ∷ ((c ∷ protocol) ++ b' ' ∷ ((d ∷ sentby) ++ params_text ps)))
      ≡ ok (
          via
            (a, b)
            (existing_atom_or_string vm (lower_case (c ∷ protocol)))
            (strip_brackets host)
            (if eqb_ℤ port (negsuc 0) then default_port (lower_case (c ∷ protocol)) else port)
            ps)
unfolding via_params
via_params-text vm a b c protocol d sentby host port ps ha hb hp hd hs stops ends e h ds =
    rw
      (
        parse_via-parts vm a b c protocol d sentby (params_text ps) host port ha hb hp hd hs refl
            stops ends e,
        parse_parameters-param_text [] ps tt h ds,
      )
      refl
