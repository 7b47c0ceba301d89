-- ===== src/Transaction/Validate/Validators.antt =====
-- lib/sippet/message.ex: when each validator of `validate` answers, and what its consent means.
use elixir_sippet.Base.{
  ℕ, Bool, true, false, Bool-cases, Option-cases, List, [], ◌∷◌, Option, none, some, Bytes, codes,
  ◌≡◌, ◌⊎◌, inl, inr, refl, sym, ap, ◌∙◌, arith,
}
use elixir_sippet.Message.HeaderMap.{same_name_iff}
use elixir_sippet.Transaction.Key.{cseq_method}
use elixir_sippet.Transaction.Message.{
  HeaderMap, header_value, fetch_header, has_header, from_name, cseq_name, tag,
}
use elixir_sippet.Transaction.Validate.{
  Reason, Verdict, valid, invalid, missing_headers, Parts, is_two_zero, missing, required,
  matches_size, content_length_name, has_valid_start_line_version, has_required_headers,
  has_valid_body, has_tag_in, has_tag_on_from, tag_verdict, pairs_method, has_matching_cseq,
  do_validate, starts_with, magic_cookie, via_verdict, has_valid_vias,
}
use elixir_sippet.Value.{Name, Value, Item, one, via, contact, cseq, map_get}

-- A verdict that is no exception
abbrev pub Answers : Verdict → Type 0
Answers verdict = (verdict ≡ valid) ⊎ ((reason : Reason) × (verdict ≡ invalid reason))

-- Via values, as the parser makes them
abbrev pub all_vias : List Item → Bool
all_vias [] = true
all_vias (via version protocol host port params ∷ rest) = all_vias rest
all_vias (other ∷ rest) = false

-- A contact, as the parser makes it of a From
abbrev pub is_contact : Option (Option Value) → Bool
is_contact none = true
is_contact (some (some (one (contact display_name uri params)))) = true
is_contact other = false

pub do_validate-Answers :
    (f : Parts → Verdict) (rest : List (Parts → Verdict)) (m : Parts)
    → Answers (f m)
    → (f m ≡ valid → Answers (do_validate rest m))
    → Answers (do_validate (f ∷ rest) m)
unfolding do_validate
do_validate-Answers f rest m (inl ok) next = rw (do_validate, ok) (next ok)
do_validate-Answers f rest m (inr (reason, e)) next = rw (do_validate, e) (inr (reason, refl))

pub do_validate-valid :
    (f : Parts → Verdict) (rest : List (Parts → Verdict)) (m : Parts)
    → do_validate (f ∷ rest) m ≡ valid
    → (f m ≡ valid) × (do_validate rest m ≡ valid)
unfolding do_validate
do_validate-valid f rest m h = ground arith

-- Of the headers that are asked for, none is missing.
missing-none :
    (headers : HeaderMap)
    → missing required headers ≡ []
    → (has_header from_name headers ≡ true) × (has_header cseq_name headers ≡ true)
unfolding missing
missing-none headers h = ground arith

has_required_headers-there :
    (m : Parts)
    → has_required_headers m ≡ valid
    → (has_header from_name m.headers ≡ true) × (has_header cseq_name m.headers ≡ true)
unfolding has_required_headers
has_required_headers-there m h = missing-none m.headers (ground arith)

has_header-there :
    (name : Name) (headers : HeaderMap)
    → has_header name headers ≡ true
    → (value : Option Value) × (fetch_header name headers ≡ some value)
unfolding has_header
has_header-there name headers h = elim (Option-cases (fetch_header name headers)) [
  | inl absent ↦ absurd (ground arith)
  | inr there ↦ there
]

tag_verdict-Answers : (o : Option Bytes) → Answers (tag_verdict o)
unfolding tag_verdict
tag_verdict-Answers none = inr (_, refl)
tag_verdict-Answers (some []) = inr (_, refl)
tag_verdict-Answers (some (c ∷ text)) = inl refl

via_verdict-Answers :
    (version : ℕ × ℕ) (branch : Option Bytes) → Answers (via_verdict version branch)
unfolding via_verdict
via_verdict-Answers version branch = elim (Bool-cases (is_two_zero version)) [
  | inl two ↦ elim (Option-cases branch) [
    | inl absent ↦ rw (two, absent) (inr (_, refl))
    | inr (text, e) ↦ elim (Bool-cases (starts_with text magic_cookie)) [
      | inl cookie ↦ rw (two, e, cookie) (inl refl)
      | inr other ↦ rw (two, e, other) (inr (_, refl))
    ]
  ]
  | inr other ↦ rw other (inr (_, refl))
]

pub via_verdict-valid :
    (version : ℕ × ℕ) (branch : Option Bytes)
    → via_verdict version branch ≡ valid
    → (is_two_zero version ≡ true)
      × (text : Bytes) × (branch ≡ some text)
      × (starts_with text magic_cookie ≡ true)
unfolding via_verdict
via_verdict-valid version none h = absurd (ground arith)
via_verdict-valid version (some text) h = (ground arith, text, refl, ground arith)

pub has_valid_vias-Answers :
    (items : List Item) → all_vias items ≡ true → Answers (has_valid_vias items)
unfolding has_valid_vias
has_valid_vias-Answers [] all = inl refl
has_valid_vias-Answers (via version protocol host port params ∷ rest) all =
    elim (via_verdict-Answers version (map_get (codes "branch") params)) [
      | inl ok ↦ rw (has_valid_vias, ok) (has_valid_vias-Answers rest all)
      | inr (reason, e) ↦ rw (has_valid_vias, e) (inr (reason, refl))
    ]
has_valid_vias-Answers (other ∷ rest) all = absurd cc

pub has_valid_start_line_version-Answers : (m : Parts) → Answers (has_valid_start_line_version m)
unfolding has_valid_start_line_version
has_valid_start_line_version-Answers m = elim (Bool-cases (is_two_zero m.version)) [
  | inl two ↦ rw two (inl refl)
  | inr other ↦ rw other (inr (_, refl))
]

missing-Answers :
    (names : List Name)
    → Answers (elim names [ [] ↦ valid | n ∷ ns ↦ invalid (missing_headers (n ∷ ns)) ])
missing-Answers [] = inl refl
missing-Answers (n ∷ ns) = inr (_, refl)

pub has_required_headers-Answers : (m : Parts) → Answers (has_required_headers m)
unfolding has_required_headers
has_required_headers-Answers m = missing-Answers (missing required m.headers)

pub has_valid_body-Answers : (m : Parts) → Answers (has_valid_body m)
unfolding has_valid_body
has_valid_body-Answers m = elim (Option-cases (fetch_header content_length_name m.headers)) [
  | inl absent ↦ rw (has_valid_body, absent) (inl refl)
  | inr (value, e) ↦ elim (Bool-cases (matches_size m.body value)) [
    | inl same ↦ rw (has_valid_body, e, same) (inl refl)
    | inr other ↦ rw (has_valid_body, e, other) (inr (_, refl))
  ]
]

has_tag_in-Answers :
    (value : Option Value) → is_contact (some value) ≡ true → Answers (has_tag_in value)
unfolding has_tag_in
has_tag_in-Answers (some (one (contact display_name uri params))) h =
    tag_verdict-Answers (map_get tag params)
has_tag_in-Answers other h = absurd cc

pub has_tag_on_from-Answers :
    (m : Parts)
    → is_contact (fetch_header from_name m.headers) ≡ true
    → has_required_headers m ≡ valid
    → Answers (has_tag_on_from m)
unfolding has_tag_on_from
has_tag_on_from-Answers m h there =
    let (value, e) = has_header-there from_name m.headers (has_required_headers-there m there).0 in
    rw (has_tag_on_from, e) (has_tag_in-Answers value (ap is_contact (sym e) ∙ h))

pub has_matching_cseq-Answers :
    (m : Parts) (method : Name)
    → m.method ≡ some method
    → has_required_headers m ≡ valid
    → Answers (has_matching_cseq m)
unfolding has_matching_cseq
has_matching_cseq-Answers m method is_request there =
    let (value, e) = has_header-there cseq_name m.headers (has_required_headers-there m there).1 in
    elim (Bool-cases (pairs_method method value)) [
      | inl same ↦ rw (has_matching_cseq, is_request, e, same) (inl refl)
      | inr other ↦ rw (has_matching_cseq, is_request, e, other) (inr (_, refl))
    ]

pairs_method-cseq :
    (method : Name) (value : Option Value)
    → pairs_method method value ≡ true
    → cseq_method value ≡ some method
unfolding pairs_method cseq_method
pairs_method-cseq method (some (one (cseq sequence other))) h =
    ap some ((same_name_iff other method).0 h)
pairs_method-cseq method other h = absurd cc

pub has_matching_cseq-method :
    (m : Parts) (method : Name)
    → m.method ≡ some method
    → has_matching_cseq m ≡ valid
    → cseq_method (header_value cseq_name m.headers) ≡ some method
unfolding has_matching_cseq header_value
has_matching_cseq-method m method is_request h =
    elim (Option-cases (fetch_header cseq_name m.headers)) [
      | inl absent ↦ absurd (ground (arith, is_request))
      | inr (value, e) ↦
          rw (header_value, e) (pairs_method-cseq method value (ground (arith, is_request)))
    ]
