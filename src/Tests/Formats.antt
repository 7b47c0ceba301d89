-- ===== src/Tests/Formats.antt =====
-- c_src/parser.cc: the theorems on values of headers at concrete texts.
use mathlib.Core.List.{cons-ne-nil}
use elixir_sippet.Ascii.{is_lws, lower_case}
use elixir_sippet.Base.Int.{negsuc, eqb_ℤ}
use elixir_sippet.Base.{[], ◌∷◌, map, some, Bytes, codes, All, ok, ◌≡◌, refl, arith, if◌then◌else◌}
use elixir_sippet.Field.Params.Lookup.{last_value, collect_parameters-map_get}
use elixir_sippet.Field.Params.ReadBack.{IsParam, DistinctNames}
use elixir_sippet.Field.Params.{collect_parameters}
use elixir_sippet.Field.Via.{strip_brackets, default_port}
use elixir_sippet.Format.ReadBack.{single_contact_params-text, via_params-text}
use elixir_sippet.Format.Single.{single_contact_params}
use elixir_sippet.Format.{via_params}
use elixir_sippet.HostPort.Complete.{parse_host_and_port_bracketed}
use elixir_sippet.HostPort.Sound.{absent}
use elixir_sippet.HostPort.{parse_host_and_port}
use elixir_sippet.Iterators.Parameters.{generic_parameter}
use elixir_sippet.Iterators.Split.{split_values}
use elixir_sippet.StartLine.{existing_atom_or_string}
use elixir_sippet.Tests.{vm}
use elixir_sippet.Value.{Params, contact, via, map_get}

abbrev params : Params
params = (codes "branch", codes "z9") ∷ (codes "lr", []) ∷ []

params-IsParam : All IsParam params
unfolding elixir_sippet.Tokenizer.finds is_lws elixir_sippet.Ascii.to_lower_ascii lower_case
params-IsParam = (
  (
    cons-ne-nil b'b' (codes "ranch"),
    ground arith,
    refl,
    (ground arith, refl, refl),
    (ground arith, refl, refl),
  ),
  (
    (cons-ne-nil b'l' (codes "r"), ground arith, refl, (ground arith, refl, refl), (tt, tt, tt)),
    tt,
  ),
)

params-DistinctNames : DistinctNames params
unfolding map_get
params-DistinctNames = (refl, (refl, tt))

collect_parameters-map_get_example :
    (m : Params) × (collect_parameters (codes "tag=1;TAG=2") ≡ ok m)
    × ((name : Bytes)
        → map_get name m
          ≡ last_value name (map generic_parameter (split_values b';' (codes "tag=1;TAG=2"))))
collect_parameters-map_get_example = collect_parameters-map_get (codes "tag=1;TAG=2")

single_contact_params-text_example :
    single_contact_params (codes "\"A \\\"B\" <sip:a>;branch=z9;lr=")
    ≡ ok (contact (codes "A \"B") (codes "sip:a") params)
unfolding elixir_sippet.Ascii.is_quote
single_contact_params-text_example =
    single_contact_params-text b'"' (codes "A \"B") (codes "sip:a") params refl (ground arith)
      (ground arith) params-IsParam params-DistinctNames

run_host : parse_host_and_port (codes "[::1]") ≡ some (codes "[::1]", negsuc 0)
run_host = parse_host_and_port_bracketed (codes "::1") [] (negsuc 0) (ground arith) absent

via_params-text_example :
    via_params vm (codes "SIP/2.0/TLS [::1];branch=z9;lr=")
    ≡ ok (
        via
          (2, 0)
          (existing_atom_or_string vm (lower_case (codes "TLS")))
          (strip_brackets (codes "[::1]"))
          (if eqb_ℤ (negsuc 0) (negsuc 0)
            then default_port (lower_case (codes "TLS"))
            else negsuc 0)
          params)
unfolding elixir_sippet.Tokenizer.finds is_lws
via_params-text_example =
    via_params-text vm 2 0 b'T' (codes "LS") b'[' (codes "::1]") (codes "[::1]") (negsuc 0) params
      (omega arith) (omega arith) (ground arith) refl (ground arith) refl refl run_host
      params-IsParam params-DistinctNames
