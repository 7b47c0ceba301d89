-- ===== src/Field/Via/ReadBack.antt =====
-- c_src/parser.cc: `ParseVia` on values written from their parts.
use elixir_sippet.Ascii.{is_lws, sip_lws, lower_case, lower_case_equals_ascii}
use elixir_sippet.Base.Int.{ℤ, negsuc, eqb_ℤ}
use elixir_sippet.Base.{
  ℕ, ◌≤◌, true, not, [], ◌∷◌, ◌++◌, some, Bytes, codes, All, ok, ◌≡◌, refl, sym, ap, ◌∙◌, arith,
  append-nil, ◌==◌, if◌then◌else◌,
}
use elixir_sippet.Field.Via.{
  default_port, strip_brackets, sent_by, parse_sent_by, via_version_from, via_version, parse_via,
}
use elixir_sippet.HostPort.{parse_host_and_port}
use elixir_sippet.StartLine.RoundTrip.{version_text, parse_version-version_text}
use elixir_sippet.StartLine.{existing_atom_or_string, has_prefix, parse_version}
use elixir_sippet.Tokenizer.Span.{span-append, StopsAt}
use elixir_sippet.Tokenizer.{first_n, span, finds, skip, skip_lws, skip_to, skip_one}
use elixir_sippet.Tokenizer.Words.{NoLws, skip_lws-NoLws, skip_lws-space, skip_not_in-NoLws}
use elixir_sippet.Trim.Trimmed.{EndsOutside, trim_lws-fixes}
use elixir_sippet.Value.{Runtime}

skip_to-semicolon :
    (s rest : Bytes)
    → All (λ c. (not (b';' == c)) ≡ true) s
    → StopsAt (λ c. not (b';' == c)) rest
    → skip_to b';' (s ++ rest) ≡ (s, rest)
unfolding skip_to
skip_to-semicolon s rest h k = span-append (λ c. not (b';' == c)) s rest h k

via_version_text :
    (a b : ℕ) (rest : Bytes)
    → a ≤ 9
    → b ≤ 9
    → via_version (version_text a b ++ b'/' ∷ rest) ≡ (version_text a b, b'/' ∷ rest)
unfolding via_version via_version_from skip_to span
via_version_text a b rest ha hb = ground arith

parse_sent_by_lem :
    (vm : Runtime) (version : ℕ × ℕ) (c : ℕ) (protocol : Bytes) (d : ℕ) (sentby rest host : Bytes)
    (port : ℤ)
    → NoLws (c ∷ protocol)
    → not (finds sip_lws d) ≡ true
    → All (λ x. (not (b';' == x)) ≡ true) (d ∷ sentby)
    → StopsAt (λ x. not (b';' == x)) rest
    → StopsAt is_lws (d ∷ sentby)
    → EndsOutside is_lws (d ∷ sentby)
    → parse_host_and_port (d ∷ sentby) ≡ some (host, port)
    → parse_sent_by vm version ((c ∷ protocol) ++ b' ' ∷ ((d ∷ sentby) ++ rest))
      ≡ sent_by vm version (lower_case (c ∷ protocol)) rest (some (host, port))
unfolding parse_sent_by
parse_sent_by_lem vm version c protocol d sentby rest host port hp hd hs hr stops ends e =
    rw
      (
        skip_not_in-NoLws (c ∷ protocol) ((d ∷ sentby) ++ rest) hp,
        skip_lws-space d (sentby ++ rest) hd,
        skip_to-semicolon (d ∷ sentby) rest hs hr,
        trim_lws-fixes (d ∷ sentby) stops ends,
        e,
      )
      refl

has_prefix-version_text :
    (a b : ℕ) (rest : Bytes) → has_prefix (codes "sip") (version_text a b ++ rest) ≡ true
unfolding has_prefix first_n lower_case_equals_ascii
has_prefix-version_text a b rest = refl

-- A Via value with a version of single digits, a slash, a protocol, a space, and a sent-by in front
-- of a semicolon or the end is read back, where the protocol is not empty and holds no space and no
-- tab, and the sent-by is not empty, holds no semicolon, neither starts nor ends with a blank, and
-- is accepted by `ParseHostAndPort`: the protocol in lower case as `existing_atom_or_string` takes
-- it, the host without brackets, and the port, or the protocol's where there is none.
pub parse_via-parts :
    (vm : Runtime) (a b c : ℕ) (protocol : Bytes) (d : ℕ) (sentby rest host : Bytes) (port : ℤ)
    → a ≤ 9
    → b ≤ 9
    → NoLws (c ∷ protocol)
    → not (finds sip_lws d) ≡ true
    → All (λ x. (not (b';' == x)) ≡ true) (d ∷ sentby)
    → StopsAt (λ x. not (b';' == x)) rest
    → StopsAt is_lws (d ∷ sentby)
    → EndsOutside is_lws (d ∷ sentby)
    → parse_host_and_port (d ∷ sentby) ≡ some (host, port)
    → parse_via vm (version_text a b ++ b'/' ∷ ((c ∷ protocol) ++ b' ' ∷ ((d ∷ sentby) ++ rest)))
      ≡ ok (record {
        version = (a, b);
        protocol = existing_atom_or_string vm (lower_case (c ∷ protocol));
        host = strip_brackets host;
        port = if eqb_ℤ port (negsuc 0) then default_port (lower_case (c ∷ protocol)) else port;
        rest = rest;
      })
unfolding parse_via
parse_via-parts vm a b c protocol d sentby rest host port ha hb hp hd hs hr stops ends e =
    let tail = (c ∷ protocol) ++ b' ' ∷ ((d ∷ sentby) ++ rest) in
    let start : skip_lws (version_text a b ++ b'/' ∷ tail) ≡ version_text a b ++ b'/' ∷ tail =
      unfold skip_lws skip span finds in refl in
    let version : parse_version (version_text a b) ≡ ok (a, b) =
      rw (sym (append-nil (version_text a b))) (parse_version-version_text a b [] ha hb) in
    rw (start, via_version_text a b tail ha hb, has_prefix-version_text a b (b'/' ∷ tail), version)
      (sent
        ∙ parse_sent_by_lem vm (a, b) c protocol d sentby rest host port hp hd hs hr stops ends e
        ∙ found)
  where
    sent :
        parse_sent_by vm
          (a, b)
          (skip_lws (skip_one (b'/' ∷ ((c ∷ protocol) ++ b' ' ∷ ((d ∷ sentby) ++ rest)))))
        ≡ parse_sent_by vm (a, b) ((c ∷ protocol) ++ b' ' ∷ ((d ∷ sentby) ++ rest))
    sent =
        unfold skip_one in
        ap (parse_sent_by vm (a, b))
          (skip_lws-NoLws c (protocol ++ b' ' ∷ ((d ∷ sentby) ++ rest)) hp.0)

    found :
        sent_by vm (a, b) (lower_case (c ∷ protocol)) rest (some (host, port))
        ≡ ok (record {
          version = (a, b);
          protocol = existing_atom_or_string vm (lower_case (c ∷ protocol));
          host = strip_brackets host;
          port = if eqb_ℤ port (negsuc 0) then default_port (lower_case (c ∷ protocol)) else port;
          rest = rest;
        })
    found = unfold sent_by in refl
