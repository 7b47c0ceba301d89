-- ===== src/Format.antt =====
-- c_src/parser.cc: the functions that parse all the values of a header, which c_src/header_list.h
-- names. They take the text from `values_begin` to `values_end`. Those with one value are in Single.
pub mod Numbers
pub mod Single
pub mod Collect
pub mod Forms
pub mod ReadBack
pub mod MediaType
use elixir_sippet.Base.{
  List, [], ◌∷◌, Bytes, codes, Result, ok, ◌>>=◌, reverse, while_next, rounds, if◌then◌else◌,
}
use elixir_sippet.Field.Contact.{parse_star}
use elixir_sippet.Field.Params.{parse_parameters}
use elixir_sippet.Field.Via.{parse_via, parse_warning}
use elixir_sippet.Field.{parse_uri}
use elixir_sippet.Format.Single.{
  single_token, single_token_params, single_type_subtype_params, single_contact_params,
}
use elixir_sippet.Iterators.{values_next}
use elixir_sippet.Value.{Item, binary, with_params, warning, via, Value, one, many, Runtime}

-- The loop that the functions below share: `while (it.GetNext())` over the values, each term put in
-- front of `result`, which is turned around at the end.
unfoldable pub collect_items : (Bytes → Result Item) → Bytes → Result (List Item)
collect_items parse values = do
  items ←
      while_next (values_next b',') (λ value items. parse value >>= λ item. ok (item ∷ items))
        (rounds values) values []
  ok (reverse items)

-- `ParseMultipleTokens`
unfoldable pub multiple_tokens : Bytes → Result (List Item)
multiple_tokens = collect_items single_token

-- `ParseMultipleTokenParams`
unfoldable pub multiple_token_params : Bytes → Result (List Item)
multiple_token_params = collect_items single_token_params

-- `ParseMultipleTypeSubtypeParams`
unfoldable pub multiple_type_subtype_params : Bytes → Result (List Item)
multiple_type_subtype_params = collect_items single_type_subtype_params

-- One value of `ParseMultipleUriParams`.
unfoldable pub uri_params : Bytes → Result Item
uri_params value = do
  (uri, tok) ← parse_uri value
  parameters ← parse_parameters tok
  ok (with_params uri parameters)

unfoldable pub multiple_uri_params : Bytes → Result (List Item)
multiple_uri_params = collect_items uri_params

-- `ParseMultipleContactParams`
unfoldable pub multiple_contact_params : Bytes → Result (List Item)
multiple_contact_params = collect_items single_contact_params

-- `ParseStarOrMultipleContactParams`
unfoldable pub star_or_multiple_contact_params : Bytes → Result Value
star_or_multiple_contact_params values =
    if parse_star values
    then ok (one (binary (codes "*")))
    else (multiple_contact_params values >>= λ contacts. ok (many contacts))

-- One value of `ParseMultipleWarnings`.
unfoldable pub warning_value : Bytes → Result Item
warning_value value = do w ← parse_warning value; ok (warning w.code w.agent w.text)

unfoldable pub multiple_warnings : Bytes → Result (List Item)
multiple_warnings = collect_items warning_value

-- One value of `ParseMultipleVias`.
unfoldable pub via_params : Runtime → Bytes → Result Item
via_params vm value = do
  v ← parse_via vm value
  parameters ← parse_parameters v.rest
  ok (via v.version v.protocol v.host v.port parameters)

unfoldable pub multiple_vias : Runtime → Bytes → Result (List Item)
multiple_vias vm = collect_items (via_params vm)
