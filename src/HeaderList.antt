-- ===== src/HeaderList.antt =====
-- c_src/header_list.h, c_src/method_list.h and c_src/protocol_list.h, and the tables that
-- `LoadHeaderNameAtoms`, `LoadMethodAtoms` and `LoadProtocolAtoms` of c_src/parser.cc make of them.
use elixir_sippet.Base.{
  ℕ, not, ◌&&◌, List, [], ◌∷◌, ◌++◌, map, Option, none, some, Bytes, codes, equal, ◌==◌,
  if◌then◌else◌,
}
use elixir_sippet.Ascii.{lower_case}

-- The fourth argument of `X`, the function that parses the values.
pub data ValueFormat : Type 0 where
  multiple_type_subtype_params : ValueFormat
  multiple_token_params : ValueFormat
  multiple_uri_params : ValueFormat
  multiple_tokens : ValueFormat
  only_auth_params : ValueFormat
  scheme_and_auth_params : ValueFormat
  single_token : ValueFormat
  star_or_multiple_contact_params : ValueFormat
  single_token_params : ValueFormat
  single_integer : ValueFormat
  single_type_subtype_params : ValueFormat
  cseq : ValueFormat
  date : ValueFormat
  single_contact_params : ValueFormat
  multiple_contact_params : ValueFormat
  mime_version : ValueFormat
  trimmed_utf8 : ValueFormat
  retry_after : ValueFormat
  timestamp : ValueFormat
  multiple_vias : ValueFormat
  multiple_warnings : ValueFormat

pub record HeaderRow : Type 0 where
  pub compact_name : ℕ
  pub atom_name : Bytes
  pub format : ValueFormat

-- `X(header_name, compact_name, atom_name, format)`; the first argument is not used.
abbrev x : ℕ → Bytes → ValueFormat → HeaderRow
x compact_name atom_name format = record {
  compact_name = compact_name;
  atom_name = atom_name;
  format = format;
}

unfoldable pub header_list : List HeaderRow
header_list =
    x 0 (codes "accept") multiple_type_subtype_params
    ∷ x 0 (codes "accept_encoding") multiple_token_params
    ∷ x 0 (codes "accept_language") multiple_token_params
    ∷ x 0 (codes "alert_info") multiple_uri_params
    ∷ x 0 (codes "allow") multiple_tokens
    ∷ x b'u' (codes "allow_events") multiple_tokens
    ∷ x 0 (codes "authentication_info") only_auth_params
    ∷ x 0 (codes "authorization") scheme_and_auth_params
    ∷ x b'i' (codes "call_id") single_token
    ∷ x 0 (codes "call_info") multiple_uri_params
    ∷ x b'm' (codes "contact") star_or_multiple_contact_params
    ∷ x 0 (codes "content_disposition") single_token_params
    ∷ x b'e' (codes "content_encoding") multiple_tokens
    ∷ x 0 (codes "content_language") multiple_tokens
    ∷ x b'l' (codes "content_length") single_integer
    ∷ x b'c' (codes "content_type") single_type_subtype_params
    ∷ x 0 (codes "cseq") cseq
    ∷ x 0 (codes "date") date
    ∷ x 0 (codes "error_info") multiple_uri_params
    ∷ x b'o' (codes "event") single_token_params
    ∷ x 0 (codes "expires") single_integer
    ∷ x b'f' (codes "from") single_contact_params
    ∷ x 0 (codes "history_info") multiple_contact_params
    ∷ x 0 (codes "in_reply_to") multiple_tokens
    ∷ x 0 (codes "max_forwards") single_integer
    ∷ x 0 (codes "mime_version") mime_version
    ∷ x 0 (codes "min_expires") single_integer
    ∷ x 0 (codes "min_se") single_integer
    ∷ x 0 (codes "organization") trimmed_utf8
    ∷ x 0 (codes "p_access_network_info") single_token_params
    ∷ x 0 (codes "p_asserted_identity") multiple_contact_params
    ∷ x 0 (codes "p_associated_uri") multiple_contact_params
    ∷ x 0 (codes "p_called_party_id") single_contact_params
    ∷ x 0 (codes "p_charging_vector") single_token_params
    ∷ x 0 (codes "p_preferred_identity") multiple_contact_params
    ∷ x 0 (codes "p_served_user") single_contact_params
    ∷ x 0 (codes "p_visited_network_id") multiple_token_params
    ∷ x 0 (codes "path") multiple_contact_params
    ∷ x 0 (codes "priority") single_token
    ∷ x 0 (codes "privacy") multiple_tokens
    ∷ x 0 (codes "proxy_authenticate") scheme_and_auth_params
    ∷ x 0 (codes "proxy_authorization") scheme_and_auth_params
    ∷ x 0 (codes "proxy_require") multiple_tokens
    ∷ x 0 (codes "rack") cseq
    ∷ x 0 (codes "reason") multiple_token_params
    ∷ x 0 (codes "record_route") multiple_contact_params
    ∷ x b'r' (codes "refer_to") single_contact_params
    ∷ x b'b' (codes "referred_by") single_contact_params
    ∷ x 0 (codes "reply_to") single_contact_params
    ∷ x 0 (codes "require") multiple_tokens
    ∷ x 0 (codes "retry_after") retry_after
    ∷ x 0 (codes "route") multiple_contact_params
    ∷ x 0 (codes "rseq") single_integer
    ∷ x 0 (codes "security_client") trimmed_utf8
    ∷ x 0 (codes "security_server") trimmed_utf8
    ∷ x 0 (codes "security_verify") trimmed_utf8
    ∷ x 0 (codes "server") trimmed_utf8
    ∷ x 0 (codes "service_route") multiple_contact_params
    ∷ x b's' (codes "subject") trimmed_utf8
    ∷ x 0 (codes "subscription_state") single_token_params
    ∷ x b'k' (codes "supported") multiple_tokens
    ∷ x 0 (codes "timestamp") timestamp
    ∷ x b't' (codes "to") single_contact_params
    ∷ x 0 (codes "unsupported") multiple_tokens
    ∷ x 0 (codes "user_agent") trimmed_utf8
    ∷ x b'v' (codes "via") multiple_vias
    ∷ x 0 (codes "warning") multiple_warnings
    ∷ x 0 (codes "www_authenticate") scheme_and_auth_params
    ∷ []

abbrev pub method_list : List Bytes
method_list =
    codes "ACK"
    ∷ codes "BYE"
    ∷ codes "CANCEL"
    ∷ codes "INFO"
    ∷ codes "INVITE"
    ∷ codes "MESSAGE"
    ∷ codes "NOTIFY"
    ∷ codes "OPTIONS"
    ∷ codes "PRACK"
    ∷ codes "PUBLISH"
    ∷ codes "PULL"
    ∷ codes "PUSH"
    ∷ codes "REFER"
    ∷ codes "REGISTER"
    ∷ codes "STORE"
    ∷ codes "SUBSCRIBE"
    ∷ codes "UPDATE"
    ∷ []

abbrev pub protocol_list : List Bytes
protocol_list =
    codes "AMQP"
    ∷ codes "DCCP"
    ∷ codes "DTLS"
    ∷ codes "SCTP"
    ∷ codes "STOMP"
    ∷ codes "TCP"
    ∷ codes "TLS"
    ∷ codes "UDP"
    ∷ codes "WS"
    ∷ codes "WSS"
    ∷ []

-- `g_parsers.find`: the first row with the atom.
unfoldable pub find_parser : Bytes → List HeaderRow → Option ValueFormat
find_parser name [] = none
find_parser name (row ∷ rows) =
    if equal row.atom_name name then some row.format else find_parser name rows

-- `g_aliases.find`: the first row with the compact name; 0 stands for none.
unfoldable pub find_alias : ℕ → List HeaderRow → Option Bytes
find_alias c [] = none
find_alias c (row ∷ rows) =
    if not (row.compact_name == 0) && row.compact_name == c
    then some row.atom_name
    else find_alias c rows

-- The atoms that `on_load` makes.
unfoldable pub loaded_atoms : List Bytes
unfolding header_list lower_case
loaded_atoms =
    map lower_case method_list
    ++ (map (λ (row : HeaderRow). row.atom_name) header_list ++ map lower_case protocol_list)
