-- ===== src/Format/Forms.antt =====
-- c_src/parser.cc: the form of the term that each `Parse…` function of one value makes, and the ranges
-- of the numbers in it.
pub mod Via
use elixir_sippet.Base.Int.{ℤ, pos, ltb_ℤ, ◌≤ℤ◌}
use elixir_sippet.Base.{
  form_rules, Bool-cases, ok, ◌>>=◌, inl, inr, true, ℕ, ◌≤◌, Bool, false, not, ◌||◌, Option, none,
  some, Bytes, err, Ensures, returns, fails, Ensures-chain, Ensures-if, ◌≡◌, arith, if◌then◌else◌,
  codes,
}
use elixir_sippet.Field.Via.{WarningField, parse_warning, parse_warn_text}
use elixir_sippet.Format.Single.{
  single_token, single_token_params, single_type_subtype_params, single_integer, only_auth_params,
  scheme_and_auth_params, single_contact_params, trimmed_utf8, parse_cseq, parse_date, date_of,
  date_term, parse_timestamp, timestamp_of, make_double, is_finite, delay_bits, parse_mime_version,
  parse_retry_after,
}
use elixir_sippet.Format.{uri_params, warning_value}
use elixir_sippet.Number.Range.{IsInt, string_to_int-IsInt}
use elixir_sippet.Tokenizer.{skip_lws}
use elixir_sippet.Value.{
  Item, binary, with_params, type_params, auth_params, contact, integer, cseq, date, timestamp,
  mime_version, retry_after, warning, via, Runtime, ExplodedTime,
}

pub data Form : Type 0 where
  text_form params_form type_form auth_form contact_form integer_form cseq_form date_form : Form
  timestamp_form mime_form retry_form warning_form via_form : Form

-- Of a form, with an `int` where the form has a number, a warning's code of three digits, a version
-- of two digits and a port that is not negative.
abbrev pub IsForm : Form → Item → Type 0
IsForm text_form (binary s) = Unit
IsForm params_form (with_params s m) = Unit
IsForm type_form (type_params t m) = Unit
IsForm auth_form (auth_params m) = Unit
IsForm contact_form (contact n a m) = Unit
IsForm integer_form (integer z) = IsInt z
IsForm cseq_form (cseq z n) = IsInt z
IsForm date_form (date d t u) = Unit
IsForm timestamp_form (timestamp t d) = (is_finite t ≡ true) × (is_finite d ≡ true)
IsForm mime_form (mime_version a b) = IsInt a × IsInt b
IsForm retry_form (retry_after z c m) = IsInt z
IsForm warning_form (warning z a t) = (pos 100 ≤ℤ z) × (z ≤ℤ pos 999)
IsForm via_form (via v n h p m) = (v.0 ≤ 9) × (v.1 ≤ 9) × (pos 0 ≤ℤ p) × IsInt p
IsForm _ _ = ⊥

pub single_token-IsForm : (s : Bytes) → Ensures (IsForm text_form) (single_token s)
unfolding single_token
single_token-IsForm s = search form_rules

pub single_token_params-IsForm : (s : Bytes) → Ensures (IsForm params_form) (single_token_params s)
unfolding single_token_params
single_token_params-IsForm s = search form_rules

pub single_integer-IsForm : (s : Bytes) → Ensures (IsForm integer_form) (single_integer s)
unfolding single_integer
single_integer-IsForm s = search (form_rules, string_to_int-IsInt)

pub single_type_subtype_params-IsForm :
    (s : Bytes) → Ensures (IsForm type_form) (single_type_subtype_params s)
unfolding single_type_subtype_params
single_type_subtype_params-IsForm s = search form_rules

pub only_auth_params-IsForm : (s : Bytes) → Ensures (IsForm auth_form) (only_auth_params s)
unfolding only_auth_params
only_auth_params-IsForm s = search form_rules

pub scheme_and_auth_params-IsForm :
    (s : Bytes) → Ensures (IsForm params_form) (scheme_and_auth_params s)
unfolding scheme_and_auth_params
scheme_and_auth_params-IsForm s = search form_rules

pub single_contact_params-IsForm :
    (s : Bytes) → Ensures (IsForm contact_form) (single_contact_params s)
unfolding single_contact_params
single_contact_params-IsForm s = search form_rules

pub trimmed_utf8-IsForm : (s : Bytes) → Ensures (IsForm text_form) (trimmed_utf8 s)
unfolding trimmed_utf8
trimmed_utf8-IsForm s = search form_rules

pub uri_params-IsForm : (s : Bytes) → Ensures (IsForm params_form) (uri_params s)
unfolding uri_params
uri_params-IsForm s = search form_rules

pub parse_cseq-IsForm : (vm : Runtime) (s : Bytes) → Ensures (IsForm cseq_form) (parse_cseq vm s)
unfolding parse_cseq
parse_cseq-IsForm vm s = search (form_rules, string_to_int-IsInt)

date_of-IsForm :
    (vm : Runtime) (r : Option ExplodedTime) → Ensures (IsForm date_form) (date_of vm r)
unfolding date_of date_term
date_of-IsForm vm none = fails
date_of-IsForm vm (some t) = returns tt

pub parse_date-IsForm : (vm : Runtime) (s : Bytes) → Ensures (IsForm date_form) (parse_date vm s)
unfolding parse_date
parse_date-IsForm vm s = search (form_rules, date_of-IsForm)

make_double-finite : (bits : ℕ) → Ensures (λ b. is_finite b ≡ true) (make_double bits)
unfolding make_double
make_double-finite bits = elim (Bool-cases (is_finite bits)) [
  | inl finite ↦ rw finite (returns finite)
  | inr other ↦ rw other fails
]

timestamp_of-IsForm :
    (vm : Runtime) (r : Option ℕ) (s : Bytes)
    → Ensures (IsForm timestamp_form) (timestamp_of vm r s)
unfolding timestamp_of
timestamp_of-IsForm vm none s = fails
timestamp_of-IsForm vm (some t) s =
    let delay = make_double (delay_bits vm (skip_lws s)) in
    Ensures-chain (λ first. delay >>= λ d. ok (timestamp first d)) (make_double-finite t)
      (λ first is_first.
        Ensures-chain (λ d. ok (timestamp first d))
          (make_double-finite (delay_bits vm (skip_lws s)))
          (λ d is_delay. returns (is_first, is_delay)))

pub parse_timestamp-IsForm :
    (vm : Runtime) (s : Bytes) → Ensures (IsForm timestamp_form) (parse_timestamp vm s)
unfolding parse_timestamp
parse_timestamp-IsForm vm s = search (form_rules, timestamp_of-IsForm)

pub parse_mime_version-IsForm : (s : Bytes) → Ensures (IsForm mime_form) (parse_mime_version s)
unfolding parse_mime_version
parse_mime_version-IsForm s = search (form_rules, string_to_int-IsInt) depth 9

pub parse_retry_after-IsForm : (s : Bytes) → Ensures (IsForm retry_form) (parse_retry_after s)
unfolding parse_retry_after
parse_retry_after-IsForm s = search (form_rules, string_to_int-IsInt) depth 9

abbrev InWarning : WarningField → Type 0
InWarning w = (pos 100 ≤ℤ w.code) × (w.code ≤ℤ pos 999)

parse_warn_text-code :
    (code : ℤ) (agent s : Bytes)
    → (pos 100 ≤ℤ code) × (code ≤ℤ pos 999)
    → Ensures InWarning (parse_warn_text code agent s)
unfolding parse_warn_text
parse_warn_text-code code agent s h = search form_rules depth 7

three_digits :
    (valid : Bool) (z : ℤ)
    → (not valid || ltb_ℤ z (pos 100) || ltb_ℤ (pos 999) z) ≡ false
    → (pos 100 ≤ℤ z) × (z ≤ℤ pos 999)
three_digits valid z h = ground arith

-- The tests of `ParseWarning` on the code and behind it.
warning_tests :
    (valid no_agent : Bool) (code : ℤ) (agent rest : Bytes)
    → Ensures InWarning (
        if not valid || ltb_ℤ code (pos 100) || ltb_ℤ (pos 999) code
        then err (codes "invalid_code")
        else if no_agent
        then err (codes "empty_warn_agent")
        else parse_warn_text code agent rest)
warning_tests valid no_agent code agent rest =
    Ensures-if (not valid || ltb_ℤ code (pos 100) || ltb_ℤ (pos 999) code)
      (err (codes "invalid_code"))
      (if no_agent then err (codes "empty_warn_agent") else parse_warn_text code agent rest)
      (λ _. fails)
      λ h.
        Ensures-if no_agent (err (codes "empty_warn_agent")) (parse_warn_text code agent rest)
          (λ _. fails) λ _. parse_warn_text-code code agent rest (three_digits valid code h)

parse_warning-code : (s : Bytes) → Ensures InWarning (parse_warning s)
unfolding parse_warning
parse_warning-code s = search (form_rules, warning_tests)

pub warning_value-IsForm : (s : Bytes) → Ensures (IsForm warning_form) (warning_value s)
unfolding warning_value
warning_value-IsForm s = Ensures-chain _ (parse_warning-code s) (λ w h. returns h)
