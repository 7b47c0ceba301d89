-- ===== src/Message/Header/Conforms.antt =====
-- c_src/parser.cc: the terms of `ParseHeader` and the formats of c_src/header_list.h.
use elixir_sippet.Base.{
  traverse, List, [], ◌∷◌, Option, none, some, Bytes, codes, All, Result, ok, ◌>>=◌, Ensures,
  returns, fails, Ensures-chain, Ensures-if, ◌≡◌, refl, arith,
}
use elixir_sippet.Field.Contact.{parse_star}
use elixir_sippet.Format.Collect.{collect_items-traverse}
use elixir_sippet.Format.Forms
use elixir_sippet.Format.Forms.Via.{via_params-IsForm}
use elixir_sippet.Format.Forms.{
  Form, text_form, params_form, type_form, auth_form, contact_form, integer_form, cseq_form,
  date_form, timestamp_form, mime_form, retry_form, warning_form, via_form, IsForm,
}
use elixir_sippet.Format.{
  collect_items, multiple_tokens, multiple_token_params, multiple_type_subtype_params,
  multiple_uri_params, multiple_contact_params, star_or_multiple_contact_params, multiple_warnings,
  multiple_vias,
}
use elixir_sippet.HeaderList.{ValueFormat, header_list, find_parser}
use elixir_sippet.Message.Header.{parse_values, header_parser, parse_header}
use elixir_sippet.Value.{Name, atom, string, Item, binary, Value, one, many, Runtime}

-- One term of a form; a list of such terms; the text of a star, or a list of contacts.
abbrev pub One : Form → Value → Type 0
One k (one item) = IsForm k item
One k (many items) = ⊥

abbrev Many : Form → Value → Type 0
Many k (one item) = ⊥
Many k (many items) = All (IsForm k) items

abbrev pub Star : Value → Type 0
Star (one item) = item ≡ binary (codes "*")
Star (many items) = All (IsForm contact_form) items

-- What each format of c_src/header_list.h promises.
abbrev pub Conforms : ValueFormat → Value → Type 0
Conforms ValueFormat.single_token = One text_form
Conforms ValueFormat.single_token_params = One params_form
Conforms ValueFormat.single_type_subtype_params = One type_form
Conforms ValueFormat.single_integer = One integer_form
Conforms ValueFormat.single_contact_params = One contact_form
Conforms ValueFormat.only_auth_params = One auth_form
Conforms ValueFormat.scheme_and_auth_params = Many params_form
Conforms ValueFormat.trimmed_utf8 = One text_form
Conforms ValueFormat.cseq = One cseq_form
Conforms ValueFormat.date = One date_form
Conforms ValueFormat.timestamp = One timestamp_form
Conforms ValueFormat.mime_version = One mime_form
Conforms ValueFormat.retry_after = One retry_form
Conforms ValueFormat.multiple_tokens = Many text_form
Conforms ValueFormat.multiple_token_params = Many params_form
Conforms ValueFormat.multiple_type_subtype_params = Many type_form
Conforms ValueFormat.multiple_uri_params = Many params_form
Conforms ValueFormat.multiple_contact_params = Many contact_form
Conforms ValueFormat.star_or_multiple_contact_params = Star
Conforms ValueFormat.multiple_warnings = Many warning_form
Conforms ValueFormat.multiple_vias = Many via_form

traverse-All :
    (k : Form) (parse : Bytes → Result Item)
    → ((v : Bytes) → Ensures (IsForm k) (parse v))
    → (vs : List Bytes) → Ensures (All (IsForm k)) (traverse parse vs)
traverse-All k parse h [] = returns tt
traverse-All k parse h (v ∷ vs) =
    Ensures-chain (λ item. traverse parse vs >>= λ items. ok (item ∷ items)) (h v)
      λ item p.
        Ensures-chain (λ items. ok (item ∷ items)) (traverse-All k parse h vs)
          λ items ps. returns (p, ps)

collect_items-All :
    (k : Form) (parse : Bytes → Result Item)
    → ((v : Bytes) → Ensures (IsForm k) (parse v))
    → (s : Bytes) → Ensures (All (IsForm k)) (collect_items parse s)
collect_items-All k parse h s = rw (collect_items-traverse parse s) (traverse-All k parse h _)

one-Ensures :
    (k : Form) {r : Result Item}
    → Ensures (IsForm k) r
    → Ensures (One k) (r >>= λ item. ok (one item))
one-Ensures k (returns p) = returns p
one-Ensures k fails = fails

many-Ensures :
    (k : Form) {r : Result (List Item)}
    → Ensures (All (IsForm k)) r
    → Ensures (Many k) (r >>= λ items. ok (many items))
many-Ensures k (returns p) = returns p
many-Ensures k fails = fails

single-Ensures :
    (k : Form) {r : Result Item}
    → Ensures (IsForm k) r
    → Ensures (Many k) (r >>= λ item. ok (many (item ∷ [])))
single-Ensures k (returns p) = returns (p, tt)
single-Ensures k fails = fails

contacts-Ensures :
    {r : Result (List Item)}
    → Ensures (All (IsForm contact_form)) r
    → Ensures Star (r >>= λ items. ok (many items))
contacts-Ensures (returns p) = returns p
contacts-Ensures fails = fails

Star-Ensures : (s : Bytes) → Ensures Star (star_or_multiple_contact_params s)
unfolding star_or_multiple_contact_params multiple_contact_params
Star-Ensures s =
    Ensures-if (parse_star s) (ok (one (binary (codes "*"))))
      (multiple_contact_params s >>= λ items. ok (many items)) (λ _. returns refl)
      (λ _.
        contacts-Ensures (collect_items-All contact_form _ Forms.single_contact_params-IsForm s))

-- For each of the formats of the table, its function makes a term of the format's form, or fails;
-- the integers that `StringToInt` reads for it fit an `int`, the numbers of a timestamp are finite,
-- a warning's code has three digits, and a Via's version has two digits and its port is not
-- negative.
pub parse_values-Conforms :
    (vm : Runtime) (f : ValueFormat) (s : Bytes) → Ensures (Conforms f) (parse_values vm f s)
unfolding parse_values multiple_tokens multiple_token_params multiple_type_subtype_params
    multiple_uri_params multiple_contact_params multiple_warnings multiple_vias
parse_values-Conforms vm ValueFormat.single_token s =
    one-Ensures text_form (Forms.single_token-IsForm s)
parse_values-Conforms vm ValueFormat.single_token_params s =
    one-Ensures params_form (Forms.single_token_params-IsForm s)
parse_values-Conforms vm ValueFormat.single_type_subtype_params s =
    one-Ensures type_form (Forms.single_type_subtype_params-IsForm s)
parse_values-Conforms vm ValueFormat.single_integer s =
    one-Ensures integer_form (Forms.single_integer-IsForm s)
parse_values-Conforms vm ValueFormat.single_contact_params s =
    one-Ensures contact_form (Forms.single_contact_params-IsForm s)
parse_values-Conforms vm ValueFormat.only_auth_params s =
    one-Ensures auth_form (Forms.only_auth_params-IsForm s)
parse_values-Conforms vm ValueFormat.scheme_and_auth_params s =
    single-Ensures params_form (Forms.scheme_and_auth_params-IsForm s)
parse_values-Conforms vm ValueFormat.trimmed_utf8 s =
    one-Ensures text_form (Forms.trimmed_utf8-IsForm s)
parse_values-Conforms vm ValueFormat.cseq s = one-Ensures cseq_form (Forms.parse_cseq-IsForm vm s)
parse_values-Conforms vm ValueFormat.date s = one-Ensures date_form (Forms.parse_date-IsForm vm s)
parse_values-Conforms vm ValueFormat.timestamp s =
    one-Ensures timestamp_form (Forms.parse_timestamp-IsForm vm s)
parse_values-Conforms vm ValueFormat.mime_version s =
    one-Ensures mime_form (Forms.parse_mime_version-IsForm s)
parse_values-Conforms vm ValueFormat.retry_after s =
    one-Ensures retry_form (Forms.parse_retry_after-IsForm s)
parse_values-Conforms vm ValueFormat.multiple_tokens s =
    many-Ensures text_form (collect_items-All text_form _ Forms.single_token-IsForm s)
parse_values-Conforms vm ValueFormat.multiple_token_params s =
    many-Ensures params_form (collect_items-All params_form _ Forms.single_token_params-IsForm s)
parse_values-Conforms vm ValueFormat.multiple_type_subtype_params s =
    many-Ensures type_form (collect_items-All type_form _ Forms.single_type_subtype_params-IsForm s)
parse_values-Conforms vm ValueFormat.multiple_uri_params s =
    many-Ensures params_form (collect_items-All params_form _ Forms.uri_params-IsForm s)
parse_values-Conforms vm ValueFormat.multiple_contact_params s =
    many-Ensures contact_form
      (collect_items-All contact_form _ Forms.single_contact_params-IsForm s)
parse_values-Conforms vm ValueFormat.star_or_multiple_contact_params s = Star-Ensures s
parse_values-Conforms vm ValueFormat.multiple_warnings s =
    many-Ensures warning_form (collect_items-All warning_form _ Forms.warning_value-IsForm s)
parse_values-Conforms vm ValueFormat.multiple_vias s =
    many-Ensures via_form (collect_items-All via_form _ (via_params-IsForm vm) s)

-- An entry of the map of the headers: under an atom that the table lists, a term of the listed form;
-- under another name, a list of texts.
abbrev pub EntryOk : Name × Value → Type 0
EntryOk (atom a, v) = (f : ValueFormat) × (find_parser a header_list ≡ some f) × Conforms f v
EntryOk (string s, v) = Many text_form v

entry_of :
    (vm : Runtime) (a : Bytes) (f : ValueFormat) (s : Bytes)
    → find_parser a header_list ≡ some f
    → Ensures EntryOk (parse_values vm f s >>= λ v. ok (atom a, v))
entry_of vm a f s e =
    Ensures-chain (λ v. ok (atom a, v)) (parse_values-Conforms vm f s) λ v h. returns (f, e, h)

header_parser-eq-some :
    (vm : Runtime) (name a : Bytes) (f : ValueFormat)
    → header_parser vm name ≡ some (a, f)
    → find_parser a header_list ≡ some f
unfolding header_parser
header_parser-eq-some vm name a f h = ground arith

-- `ParseHeader` makes an entry of the form that the table of the headers lists, or fails.
pub parse_header-EntryOk :
    (vm : Runtime) (name values : Bytes) → Ensures EntryOk (parse_header vm name values)
unfolding parse_header
parse_header-EntryOk vm name values = entry (header_parser vm name) refl
  where
    entry :
        (r : Option (Bytes × ValueFormat))
        → header_parser vm name ≡ r
        → Ensures EntryOk (elim r [
          | none ↦ ok (string name, many (binary values ∷ []))
          | some (term, format) ↦ parse_values vm format values >>= λ v. ok (atom term, v)
        ])
    entry none e = returns (tt, tt)
    entry (some (term, format)) e =
        entry_of vm term format values (header_parser-eq-some vm name term format e)
