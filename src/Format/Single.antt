-- ===== src/Format/Single.antt =====
-- c_src/parser.cc: the functions that make one term of a header's values.
use elixir_sippet.Base.Int.{pos, ◌+ℤ◌, eqb_ℤ}
use elixir_sippet.Base.{
  ℕ, Bool, true, false, not, ◌||◌, [], ◌∷◌, Option, none, some, Bytes, codes, Result, ok, err,
  ◌>>=◌, ltb, ◌/◌, ◌%◌, ◌^◌, ◌==◌, if◌then◌else◌,
}
use elixir_sippet.Ascii.{sip_lws}
use elixir_sippet.Field.Contact.{parse_contact}
use elixir_sippet.Field.Params.{parse_parameters, parse_auth_params}
use elixir_sippet.Field.{parse_token, parse_type_subtype, parse_auth_scheme, parse_comment}
use elixir_sippet.Number.{string_to_int}
use elixir_sippet.StartLine.{existing_atom_or_string}
use elixir_sippet.Tokenizer.{skip_lws, skip_not_in, skip_to, skip_one, end_of_input}
use elixir_sippet.Trim.{trim_lws}
use elixir_sippet.Value.{
  Item, binary, with_params, type_params, auth_params, contact, integer, cseq, date, timestamp,
  mime_version, retry_after, ExplodedTime, Runtime,
}

-- `ParseSingleToken`
unfoldable pub single_token : Bytes → Result Item
single_token values = do (token, tok) ← parse_token values; ok (binary token)

-- `ParseSingleTokenParams`
unfoldable pub single_token_params : Bytes → Result Item
single_token_params values = do
  (token, tok) ← parse_token values
  parameters ← parse_parameters tok
  ok (with_params token parameters)

-- `ParseSingleTypeSubtypeParams`
unfoldable pub single_type_subtype_params : Bytes → Result Item
single_type_subtype_params values = do
  (type, tok) ← parse_type_subtype values
  parameters ← parse_parameters tok
  ok (type_params type parameters)

-- `ParseSingleInteger`
unfoldable pub single_integer : Bytes → Result Item
single_integer values =
    let (digits, rest) = skip_not_in sip_lws (skip_lws values) in
    let (valid, i) = string_to_int digits in
    if not valid then err (codes "invalid_digits") else ok (integer i)

-- `ParseOnlyAuthParams`
unfoldable pub only_auth_params : Bytes → Result Item
only_auth_params values = do parameters ← parse_auth_params values; ok (auth_params parameters)

-- The pair that `ParseSchemeAndAuthParams` puts into a list.
unfoldable pub scheme_and_auth_params : Bytes → Result Item
scheme_and_auth_params values = do
  (scheme, tok) ← parse_auth_scheme values
  parameters ← parse_auth_params tok
  ok (with_params scheme parameters)

-- `ParseSingleContactParams`
unfoldable pub single_contact_params : Bytes → Result Item
single_contact_params values = do
  c ← parse_contact values
  parameters ← parse_parameters c.rest
  ok (contact c.display_name c.address parameters)

-- `ParseTrimmedUtf8`
unfoldable pub trimmed_utf8 : Bytes → Result Item
trimmed_utf8 values = ok (binary (trim_lws values))

-- `ParseCseq`
unfoldable pub parse_cseq : Runtime → Bytes → Result Item
parse_cseq vm values =
    let start = skip_lws values in
    let (integer_string, after) = skip_not_in sip_lws start in
    let (valid, sequence) = string_to_int integer_string in
    let method_start = skip_lws after in
    let (method, rest) = skip_not_in sip_lws method_start in
    if end_of_input start
    then err (codes "missing_sequence")
    else if not valid
    then err (codes "invalid_sequence")
    else if end_of_input method_start
    then err (codes "missing_method")
    else ok (cseq sequence (existing_atom_or_string vm method))

-- The term that `ParseDate` makes of a normalized time.
unfoldable pub date_term : ExplodedTime → Item
date_term t =
    date (t.tm_year, t.tm_month +ℤ pos 1, t.tm_mday) (t.tm_hour, t.tm_min, t.tm_sec)
      (t.tm_usec, if eqb_ℤ t.tm_usec (pos 0) then 0 else 5)

-- The result for the time that NSPR reads, if it reads one.
unfoldable pub date_of : Runtime → Option ExplodedTime → Result Item
date_of vm none = err (codes "invalid_date")
date_of vm (some t) = ok (date_term (vm.normalize_time t))

-- `ParseDate`
unfoldable pub parse_date : Runtime → Bytes → Result Item
parse_date vm values =
    let text = trim_lws values in
    if end_of_input text then err (codes "empty_date") else date_of vm (vm.parse_time text)

-- The bits of `.0`.
abbrev zero_bits : ℕ
zero_bits = 0

-- The optional delay: errors are ignored, and leave it at `.0`.
unfoldable pub delay_bits : Runtime → Bytes → ℕ
delay_bits vm start =
    if end_of_input start
    then zero_bits
    else elim (vm.stod (skip_not_in sip_lws start).0) [ none ↦ zero_bits | some delay ↦ delay ]

-- The reason of an exception. It ends `Parse` whatever its result is, as the first error does, and
-- `parse_wrapper` raises it.
abbrev pub raised : Bytes
raised = codes "badarg"

-- Infinities and NaNs have an exponent whose 11 bits are all one.
unfoldable pub is_finite : ℕ → Bool
is_finite bits = not (bits / 2 ^ 52 % 2048 == 2047)

-- `enif_make_double`, which makes the exception `badarg` of a number that is not finite.
unfoldable pub make_double : ℕ → Result ℕ
unfolding is_finite
make_double bits = if is_finite bits then ok bits else err raised

-- The result for the first number, and the text behind it.
unfoldable pub timestamp_of : Runtime → Option ℕ → Bytes → Result Item
unfolding make_double
timestamp_of vm none after = err (codes "invalid_timestamp")
timestamp_of vm (some time) after = do
  first ← make_double time
  delay ← make_double (delay_bits vm (skip_lws after))
  ok (timestamp first delay)

-- `ParseTimestamp`
unfoldable pub parse_timestamp : Runtime → Bytes → Result Item
parse_timestamp vm values =
    let start = skip_lws values in
    let (text, after) = skip_not_in sip_lws start in
    if end_of_input start
    then err (codes "missing_timestamp")
    else timestamp_of vm (vm.stod text) after

-- `ParseMimeVersion`
unfoldable pub parse_mime_version : Bytes → Result Item
parse_mime_version values =
    let start = skip_lws values in
    let (major_string, dot) = skip_to b'.' start in
    let minor_string = skip_lws (skip_one dot) in
    let (major_valid, major) = string_to_int major_string in
    let (minor_valid, minor) = string_to_int minor_string in
    if end_of_input start
    then err (codes "missing_major")
    else if end_of_input major_string || not major_valid
    then err (codes "missing_or_invalid_major")
    else if end_of_input minor_string || not minor_valid
    then err (codes "invalid_minor")
    else ok (mime_version major minor)

-- `remaining.find(c)`: how many characters stand before the first `c`; `none` is `npos`, which is
-- greater than every position.
unfoldable pub find_position : ℕ → Bytes → Option ℕ
find_position c [] = none
find_position c (x ∷ s) =
    let further = find_position c s in
    if x == c then some 0 else elim further [ none ↦ none | some i ↦ some (Prim.Native.Nat.suc i) ]

-- `<` of two results of `find`.
unfoldable pub position_lt : Option ℕ → Option ℕ → Bool
position_lt none j = false
position_lt (some i) none = true
position_lt (some i) (some j) = ltb i j

-- The comment of `Retry-After`, and the text ahead of the tokenizer.
unfoldable pub retry_comment : Bytes → Result (Bytes × Bytes)
retry_comment remaining =
    if position_lt (find_position b'(' remaining) (find_position b';' remaining)
    then parse_comment remaining
    else ok ([], remaining)

-- `ParseRetryAfter`
unfoldable pub parse_retry_after : Bytes → Result Item
parse_retry_after values =
    let start = skip_lws values in
    let (delta_string, after) = skip_not_in (b' ' ∷ b'\t' ∷ b'(' ∷ b';' ∷ []) start in
    let (valid, delta_seconds) = string_to_int delta_string in
    if end_of_input start
    then err (codes "missing_delta_secs")
    else if end_of_input delta_string || not valid
    then err (codes "missing_or_invalid_delta_secs")
    else (do
      (comment, tok) ← retry_comment after
      parameters ←
          (let semicolon = (skip_to b';' tok).1 in
            if end_of_input semicolon then ok [] else parse_parameters semicolon)
      ok (retry_after delta_seconds comment parameters))
