-- ===== src/Transaction/Validate.antt =====
-- lib/sippet/message.ex: `validate` of a message and of the connection that it came by.
pub mod Validators
pub mod Answers
use elixir_sippet.Base.Int.{pos, eqb_ℤ}
use elixir_sippet.Base.{
  ℕ, Bool, true, false, not, ◌&&◌, ◌==◌, List, [], ◌∷◌, ◌++◌, Option, none, some, Bytes, codes,
  length, if◌then◌else◌,
}
use elixir_sippet.Transaction.Message.{
  HeaderMap, fetch_header, has_header, via_name, to_name, from_name, call_id_name, cseq_name, tag,
}
use elixir_sippet.Value.{
  Name, atom, same_name, Value, Item, one, many, via, contact, retry_after, warning, cseq, integer,
  map_get,
}

-- The reasons of the validators
pub data Reason : Type 0 where
  start_line_version : Reason
  missing_headers : List Name → Reason
  body_size : Reason
  empty_tag : Reason
  no_tag : Reason
  other_method : Reason
  via_version : Reason
  no_magic_cookie : Reason
  no_branch : Reason

-- `:ok`, `{:error, reason}`, or an exception
pub data Verdict : Type 0 where
  valid : Verdict
  invalid : Reason → Verdict
  raises : Verdict

-- The parts of a message that the validators read; `method` is `none` where the start line is a status line.
pub record Parts : Type 0 where
  pub version : ℕ × ℕ
  pub method : Option Name
  pub headers : HeaderMap
  pub body : Option Bytes

abbrev pub content_length_name : Name
content_length_name = atom (codes "content_length")

-- `version == {2, 0}`
unfoldable pub is_two_zero : ℕ × ℕ → Bool
is_two_zero (major, minor) = major == 2 && minor == 0

unfoldable pub has_valid_start_line_version : Parts → Verdict
unfolding is_two_zero
has_valid_start_line_version message =
    if is_two_zero message.version then valid else invalid start_line_version

-- The comprehension over the names
unfoldable pub missing : List Name → HeaderMap → List Name
unfolding has_header
missing [] headers = []
missing (name ∷ names) headers =
    if has_header name headers then missing names headers else name ∷ missing names headers

abbrev required : List Name
required = to_name ∷ from_name ∷ cseq_name ∷ call_id_name ∷ via_name ∷ []

unfoldable pub has_required_headers : Parts → Verdict
unfolding missing
has_required_headers message = elim (missing required message.headers) [
  | [] ↦ valid
  | name ∷ names ↦ invalid (missing_headers (name ∷ names))
]

-- `byte_size(body) == content_length`, with 0 for the size of no body
unfoldable pub matches_size : Option Bytes → Option Value → Bool
matches_size none (some (one (integer n))) = eqb_ℤ n (pos 0)
matches_size (some body) (some (one (integer n))) = eqb_ℤ n (pos (length body))
matches_size body value = false

unfoldable pub has_valid_body : Parts → Verdict
unfolding matches_size fetch_header
has_valid_body message = elim (fetch_header content_length_name message.headers) [
  | none ↦ valid
  | some content_length ↦
      if matches_size message.body content_length then valid else invalid body_size
]

-- `case params do`
unfoldable pub tag_verdict : Option Bytes → Verdict
tag_verdict none = invalid no_tag
tag_verdict (some []) = invalid empty_tag
tag_verdict (some (c ∷ value)) = valid

-- `has_tag_on` with the value of the header: only a triple matches.
unfoldable pub has_tag_in : Option Value → Verdict
unfolding tag_verdict map_get
has_tag_in (some (one (contact display_name uri params))) = tag_verdict (map_get tag params)
has_tag_in (some (one (retry_after seconds comment params))) = tag_verdict (map_get tag params)
has_tag_in (some (one (warning code agent text))) = invalid no_tag
has_tag_in value = raises

unfoldable pub has_tag_on_from : Parts → Verdict
unfolding has_tag_in fetch_header
has_tag_on_from message = elim (fetch_header from_name message.headers) [
  | none ↦ raises
  | some value ↦ has_tag_in value
]

-- Whether the value is a pair with this method.
unfoldable pub pairs_method : Name → Option Value → Bool
unfolding same_name
pairs_method method (some (one (cseq sequence other))) = same_name other method
pairs_method method value = false

-- `has_matching_cseq`; the first clause does not arise.
unfoldable pub has_matching_cseq : Parts → Verdict
unfolding pairs_method fetch_header
has_matching_cseq message = elim message.method [
  | none ↦ raises
  | some method ↦ elim (fetch_header cseq_name message.headers) [
    | none ↦ raises
    | some value ↦ if pairs_method method value then valid else invalid other_method
  ]
]

-- `do_validate`
unfoldable pub do_validate : List (Parts → Verdict) → Parts → Verdict
do_validate [] message = valid
do_validate (f ∷ rest) message = elim (f message) [
  | valid ↦ do_validate rest message
  | invalid reason ↦ invalid reason
  | raises ↦ raises
]

abbrev validators : List (Parts → Verdict)
validators =
    has_valid_start_line_version ∷ has_required_headers ∷ has_valid_body ∷ has_tag_on_from ∷ []

-- `validate/1`
unfoldable pub validate_message : Parts → Verdict
unfolding do_validate has_valid_start_line_version has_required_headers has_valid_body
    has_tag_on_from has_matching_cseq
validate_message message = elim message.method [
  | some method ↦ do_validate (validators ++ (has_matching_cseq ∷ [])) message
  | none ↦ do_validate validators message
]

-- `String.starts_with?`
unfoldable pub starts_with : Bytes → Bytes → Bool
starts_with text [] = true
starts_with [] (c ∷ prefix) = false
starts_with (d ∷ text) (c ∷ prefix) = d == c && starts_with text prefix

abbrev pub magic_cookie : Bytes
magic_cookie = codes "z9hG4bK"

-- What `has_valid_via` says of the version and the branch of one value.
unfoldable pub via_verdict : ℕ × ℕ → Option Bytes → Verdict
unfolding is_two_zero starts_with
via_verdict version branch =
    if not (is_two_zero version) then invalid via_version else elim branch [
      | none ↦ invalid no_branch
      | some text ↦ if starts_with text magic_cookie then valid else invalid no_magic_cookie
    ]

-- `has_valid_via` with the list of the values; a value that is no quadruple raises.
unfoldable pub has_valid_vias : List Item → Verdict
unfolding via_verdict map_get
has_valid_vias [] = valid
has_valid_vias (via version protocol host port params ∷ rest) =
    elim (via_verdict version (map_get (codes "branch") params)) [
      | valid ↦ has_valid_vias rest
      | invalid reason ↦ invalid reason
      | raises ↦ raises
    ]
has_valid_vias (other ∷ rest) = raises

unfoldable pub has_valid_via : Parts → Verdict
unfolding has_valid_vias fetch_header
has_valid_via message = elim (fetch_header via_name message.headers) [
  | some (some (many values)) ↦ has_valid_vias values
  | some (some (one value)) ↦ raises
  | some none ↦ raises
  | none ↦ raises
]

-- `validate/2`, which reads nothing of the connection
unfoldable pub validate : Parts → Verdict
unfolding validate_message do_validate has_valid_via
validate message = elim (validate_message message) [
  | valid ↦ do_validate (has_valid_via ∷ []) message
  | invalid reason ↦ invalid reason
  | raises ↦ raises
]
