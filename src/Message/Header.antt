-- ===== src/Message/Header.antt =====
-- c_src/parser.cc: `ParseHeader`.
pub mod Conforms
use elixir_sippet.Base.{List, [], ◌∷◌, Option, none, some, Bytes, Result, ok, ◌>>=◌, if◌then◌else◌}
use elixir_sippet.Ascii.{to_lower_ascii}
use elixir_sippet.Format.Single.{
  single_token, single_token_params, single_type_subtype_params, single_integer, only_auth_params,
  scheme_and_auth_params, single_contact_params, trimmed_utf8, parse_cseq, parse_date,
  parse_timestamp, parse_mime_version, parse_retry_after,
}
use elixir_sippet.Format.{
  multiple_tokens, multiple_token_params, multiple_type_subtype_params, multiple_uri_params,
  multiple_contact_params, star_or_multiple_contact_params, multiple_warnings, multiple_vias,
}
use elixir_sippet.HeaderList.{ValueFormat, header_list, find_parser, find_alias}
use elixir_sippet.StartLine.{atom_name}
use elixir_sippet.Value.{Name, atom, string, Item, binary, Value, one, many, Runtime}

abbrev one_term : Result Item → Result Value
one_term r = r >>= λ item. ok (one item)

abbrev list_term : Result (List Item) → Result Value
list_term r = r >>= λ items. ok (many items)

-- The call of the function that `g_parsers` holds for a format.
unfoldable pub parse_values : Runtime → ValueFormat → Bytes → Result Value
parse_values vm ValueFormat.single_token s = one_term (single_token s)
parse_values vm ValueFormat.single_token_params s = one_term (single_token_params s)
parse_values vm ValueFormat.single_type_subtype_params s = one_term (single_type_subtype_params s)
parse_values vm ValueFormat.single_integer s = one_term (single_integer s)
parse_values vm ValueFormat.single_contact_params s = one_term (single_contact_params s)
parse_values vm ValueFormat.only_auth_params s = one_term (only_auth_params s)
parse_values vm ValueFormat.scheme_and_auth_params s =
    scheme_and_auth_params s >>= λ item. ok (many (item ∷ []))
parse_values vm ValueFormat.trimmed_utf8 s = one_term (trimmed_utf8 s)
parse_values vm ValueFormat.cseq s = one_term (parse_cseq vm s)
parse_values vm ValueFormat.date s = one_term (parse_date vm s)
parse_values vm ValueFormat.timestamp s = one_term (parse_timestamp vm s)
parse_values vm ValueFormat.mime_version s = one_term (parse_mime_version s)
parse_values vm ValueFormat.retry_after s = one_term (parse_retry_after s)
parse_values vm ValueFormat.multiple_tokens s = list_term (multiple_tokens s)
parse_values vm ValueFormat.multiple_token_params s = list_term (multiple_token_params s)
parse_values vm ValueFormat.multiple_type_subtype_params s =
    list_term (multiple_type_subtype_params s)
parse_values vm ValueFormat.multiple_uri_params s = list_term (multiple_uri_params s)
parse_values vm ValueFormat.multiple_contact_params s = list_term (multiple_contact_params s)
parse_values vm ValueFormat.star_or_multiple_contact_params s = star_or_multiple_contact_params s
parse_values vm ValueFormat.multiple_warnings s = list_term (multiple_warnings s)
parse_values vm ValueFormat.multiple_vias s = list_term (multiple_vias vm s)

-- The alias of a header name of one character.
unfoldable pub alias_of : Bytes → Option Bytes
alias_of [] = none
alias_of (c ∷ []) = find_alias (to_lower_ascii c) header_list
alias_of (c ∷ d ∷ s) = none

-- `header_name_term`: the atom of the alias, else the existing atom of that name, else none.
unfoldable pub header_name_term : Runtime → Bytes → Option Bytes
header_name_term vm name = elim (alias_of name) [
  | some alias ↦ some alias
  | none ↦ if vm.atom_exists (atom_name name) then some (atom_name name) else none
]

-- The parser of the term, if there is one.
unfoldable pub header_parser : Runtime → Bytes → Option (Bytes × ValueFormat)
header_parser vm name = elim (header_name_term vm name) [
  | none ↦ none
  | some term ↦ elim (find_parser term header_list) [
    | none ↦ none
    | some format ↦ some (term, format)
  ]
]

-- `ParseHeader`
unfoldable pub parse_header : Runtime → Bytes → Bytes → Result (Name × Value)
parse_header vm name values = elim (header_parser vm name) [
  | none ↦ ok (string name, many (binary values ∷ []))
  | some (term, format) ↦ parse_values vm format values >>= λ v. ok (atom term, v)
]
