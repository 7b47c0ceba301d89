-- ===== src/Transaction/Validate/Answers.antt =====
-- lib/sippet/message.ex: what `validate` promises of the requests that it lets through, and when it answers.
use elixir_sippet.Base.Int.{ℤ}
use elixir_sippet.Base.{
  ℕ, true, List, [], ◌∷◌, ◌++◌, none, some, Bytes, codes, ◌≡◌, inl, inr, refl, sym, ap, ◌∙◌, arith,
}
use elixir_sippet.Transaction.Key.{cseq_method}
use elixir_sippet.Transaction.Message.{header_value, fetch_header, via_name, from_name, cseq_name}
use elixir_sippet.Transaction.Validate.{
  Verdict, valid, Parts, is_two_zero, has_valid_start_line_version, has_required_headers,
  has_valid_body, has_tag_on_from, has_matching_cseq, do_validate, validators, validate_message,
  validate, starts_with, magic_cookie, via_verdict, has_valid_vias, has_valid_via,
}
use elixir_sippet.Value.{Name, Item, many, via, Params, map_get}
use elixir_sippet.Transaction.Validate.Validators.{
  Answers, all_vias, is_contact, do_validate-Answers, do_validate-valid, via_verdict-valid,
  has_valid_vias-Answers, has_valid_start_line_version-Answers, has_required_headers-Answers,
  has_valid_body-Answers, has_tag_on_from-Answers, has_matching_cseq-Answers,
  has_matching_cseq-method,
}

-- What `validate` lets through: the versions are 2.0, the branch begins with the magic cookie, and the CSeq
-- names the method.
abbrev pub Accepted : Parts → Name → ℕ × ℕ → Params → Bytes → Type 0
Accepted m method version params branch =
    (is_two_zero m.version ≡ true)
    × (is_two_zero version ≡ true)
    × (map_get (codes "branch") params ≡ some branch)
    × (starts_with branch magic_cookie ≡ true)
    × (cseq_method (header_value cseq_name m.headers) ≡ some method)

-- The validators of a request, behind the tag, the body, the required headers and the version.
abbrev of_method : List (Parts → Verdict)
of_method = has_matching_cseq ∷ []

abbrev behind_body : List (Parts → Verdict)
behind_body = has_tag_on_from ∷ of_method

abbrev behind_required : List (Parts → Verdict)
behind_required = has_valid_body ∷ behind_body

abbrev behind_version : List (Parts → Verdict)
behind_version = has_required_headers ∷ behind_required

module _ (m : Parts) (method protocol : Name) (version : ℕ × ℕ) (host : Bytes) (port : ℤ)
    (params : Params) (rest : List Item) (is_request : m.method ≡ some method)
    (topmost : fetch_header via_name m.headers
      ≡ some (some (many (via version protocol host port params ∷ rest)))) where
  validate_message-request :
      validate_message m ≡ do_validate (validators ++ (has_matching_cseq ∷ [])) m
  unfolding validate_message
  validate_message-request =
      ap
        (λ o. elim o [
          | some x ↦ do_validate (validators ++ (has_matching_cseq ∷ [])) m
          | none ↦ do_validate validators m
        ])
        is_request

  has_valid_via-topmost :
      has_valid_via m ≡ has_valid_vias (via version protocol host port params ∷ rest)
  unfolding has_valid_via
  has_valid_via-topmost = rw (has_valid_via, topmost) refl

  validate_message-Answers :
      is_contact (fetch_header from_name m.headers) ≡ true → Answers (validate_message m)
  unfolding do_validate
  validate_message-Answers from = rw validate_message-request (
      do_validate-Answers has_valid_start_line_version behind_version m
        (has_valid_start_line_version-Answers m)
        (λ _.
          do_validate-Answers has_required_headers behind_required m
            (has_required_headers-Answers m)
            (λ there.
              do_validate-Answers has_valid_body behind_body m (has_valid_body-Answers m) (λ _.
                do_validate-Answers has_tag_on_from of_method m
                  (has_tag_on_from-Answers m from there)
                  (λ _.
                    do_validate-Answers has_matching_cseq [] m
                      (has_matching_cseq-Answers m method is_request there) (λ _. inl refl))))))

  pub validate-Answers :
      is_contact (fetch_header from_name m.headers) ≡ true
      → all_vias rest ≡ true
      → Answers (validate m)
  unfolding validate do_validate
  validate-Answers from all = elim (validate_message-Answers from) [
    | inl ok ↦
        rw (validate, ok)
          (do_validate-Answers has_valid_via [] m
            (rw has_valid_via-topmost
              (has_valid_vias-Answers (via version protocol host port params ∷ rest) all))
            (λ _. inl refl))
    | inr (reason, e) ↦ rw (validate, e) (inr (reason, refl))
  ]

  pub validate-Accepted :
      validate m ≡ valid → (branch : Bytes) × Accepted m method version params branch
  unfolding validate has_valid_vias has_valid_start_line_version
  validate-Accepted h =
      let message : validate_message m ≡ valid = ground arith in
      let of_via : do_validate (has_valid_via ∷ []) m ≡ valid = ground arith in
      let chain = sym validate_message-request ∙ message in
      let (start, c1) = do_validate-valid has_valid_start_line_version behind_version m chain in
      let (_, c2) = do_validate-valid has_required_headers behind_required m c1 in
      let (_, c3) = do_validate-valid has_valid_body behind_body m c2 in
      let (_, c4) = do_validate-valid has_tag_on_from of_method m c3 in
      let (matching, _) = do_validate-valid has_matching_cseq [] m c4 in
      let (vias, _) = do_validate-valid has_valid_via [] m of_via in
      let first : via_verdict version (map_get (codes "branch") params) ≡ valid =
        (let e = sym has_valid_via-topmost ∙ vias in ground arith) in
      let (two, branch, there, cookie) =
        via_verdict-valid version (map_get (codes "branch") params) first in
      let major : is_two_zero m.version ≡ true = ground (arith, start) in
      (branch, (major, two, there, cookie, has_matching_cseq-method m method is_request matching))
