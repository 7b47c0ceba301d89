-- ===== src/Transaction/Key/Related.antt =====
-- lib/sippet/transactions/client/key.ex and server/key.ex: the keys of messages that are related.
use elixir_sippet.Base.{
  ℕ, Bool, true, false, Bool-cases, some_inj, ltb, [], ◌∷◌, Option, none, some, Bytes, ◌≡◌, inl,
  inr, refl, subst, sym, ap, ◌∙◌, arith, if◌then◌else◌,
}
use elixir_sippet.Transaction.Key.{
  cseq_method, client_key_of_request, client_key_of_response, server_key_of_request,
  server_key_of_response, copied_headers, tag_response, to_response,
}
use elixir_sippet.Transaction.Message.{
  Request, Response, HeaderMap, trying_response, fetch_header, header_value, set_header, has_header,
  copy_if_there, via_name, cseq_name, to_name, record_route_name,
}
use elixir_sippet.Value.{Name, Value, same_name}
use elixir_sippet.Message.HeaderMap.{same_name_iff}

-- The Via values and the CSeq that a map of headers has of a request.
abbrev pub Carries : Request → HeaderMap → Type 0
Carries request m =
    (header_value via_name m ≡ header_value via_name request.headers)
    × (header_value cseq_name m ≡ header_value cseq_name request.headers)

tag_response-Carries :
    (new_tag : Bytes) (v : Option Value) (request : Request) (m : HeaderMap)
    → tag_response new_tag v (copied_headers request) ≡ some m
    → Carries request m
unfolding tag_response header_value set_header
tag_response-Carries new_tag v request m h = ground arith

pub fetch_header-set_header :
    (name n : Name) (v : Option Value) (m : HeaderMap)
    → same_name n name ≡ false
    → fetch_header name (set_header n v m) ≡ fetch_header name m
unfolding set_header fetch_header
fetch_header-set_header name n v [] h = ground arith
fetch_header-set_header name n v ((k, w) ∷ m) h = elim (Bool-cases (same_name k n)) [
  | inl same ↦
      let other = subst (λ x. same_name x name ≡ false) (sym ((same_name_iff k n).0 same)) h in
      ground arith
  | inr differs ↦ elim (Bool-cases (same_name k name)) [
    | inl here ↦ ground arith
    | inr there ↦ ground (arith, fetch_header-set_header name n v m h)
  ]
]

pub header_value-set_header :
    (name n : Name) (v : Option Value) (m : HeaderMap)
    → same_name n name ≡ false
    → header_value name (set_header n v m) ≡ header_value name m
unfolding header_value
header_value-set_header name n v m h = rw (header_value, fetch_header-set_header name n v m h) refl

header_value-copy_if_there :
    (name n : Name) (source m : HeaderMap)
    → same_name n name ≡ false
    → header_value name (copy_if_there n source m) ≡ header_value name m
header_value-copy_if_there name n source m h = elim (Bool-cases (has_header n source)) [
  | inl there ↦ rw there (header_value-set_header name n (header_value n source) m h)
  | inr absent ↦ rw absent refl
]

-- The headers of the response behind the tag.
abbrev answer : ℕ → Request → Option HeaderMap → Option Response
answer status_code request none = none
answer status_code request (some headers) = some (record {
  status_code = status_code;
  headers = copy_if_there record_route_name request.headers headers;
  target = none;
  source_peer = none;
})

answer-Carries :
    (status_code : ℕ) (request : Request) (tagged : Option HeaderMap) (r : Response)
    → ((m : HeaderMap) → tagged ≡ some m → Carries request m)
    → answer status_code request tagged ≡ some r
    → Carries request r.headers
answer-Carries status_code request none r carries h = absurd cc
answer-Carries status_code request (some m) r carries h =
    let (same_via, same_cseq) = carries m refl in
    let headers : copy_if_there record_route_name request.headers m ≡ r.headers =
      ap Response.headers (some_inj h) in
    (
      ap (header_value via_name) (sym headers)
          ∙ header_value-copy_if_there via_name record_route_name request.headers m
              (unfold same_name in refl)
          ∙ same_via,
      ap (header_value cseq_name) (sym headers)
          ∙ header_value-copy_if_there cseq_name record_route_name request.headers m
              (unfold same_name in refl)
          ∙ same_cseq,
    )

tagged-Carries :
    (above : Bool) (new_tag : Bytes) (v : Option Value) (request : Request) (m : HeaderMap)
    → (if above
        then tag_response new_tag v (copied_headers request)
        else some (copied_headers request))
      ≡ some m
    → Carries request m
unfolding header_value set_header
tagged-Carries true new_tag v request m h = tag_response-Carries new_tag v request m h
tagged-Carries false new_tag v request m h = ground arith

-- A response of `to_response` carries the Via values and the CSeq of its request.
pub to_response-Carries :
    (new_tag : Bytes) (status_code : ℕ) (request : Request) (r : Response)
    → to_response new_tag status_code request ≡ some r
    → Carries request r.headers
unfolding to_response
to_response-Carries new_tag status_code request r h =
    let above = ltb 100 status_code in
    let v = header_value to_name request.headers in
    answer-Carries status_code request
      (if above
        then tag_response new_tag v (copied_headers request)
        else some (copied_headers request))
      r (λ m e. tagged-Carries above new_tag v request m e) h

answer-target :
    (status_code : ℕ) (request : Request) (tagged : Option HeaderMap) (r : Response)
    → answer status_code request tagged ≡ some r
    → r.target ≡ none
answer-target status_code request none r h = absurd cc
answer-target status_code request (some m) r h = sym (ap Response.target (some_inj h))

-- A response of `to_response` has no target.
pub to_response-target :
    (new_tag : Bytes) (status_code : ℕ) (request : Request) (r : Response)
    → to_response new_tag status_code request ≡ some r
    → r.target ≡ none
unfolding to_response
to_response-target new_tag status_code request r h =
    let above = ltb 100 status_code in
    let v = header_value to_name request.headers in
    answer-target status_code request
      (if above
        then tag_response new_tag v (copied_headers request)
        else some (copied_headers request))
      r h

pub fetch_header-set_header_same :
    (name : Name) (v : Option Value) (m : HeaderMap)
    → fetch_header name (set_header name v m) ≡ some v
unfolding set_header fetch_header
fetch_header-set_header_same name v [] = ground (arith, (same_name_iff name name).1 refl)
fetch_header-set_header_same name v ((k, w) ∷ m) =
    ground (arith, (same_name_iff name name).1 refl, fetch_header-set_header_same name v m)

pub header_value-set_header_same :
    (name : Name) (v : Option Value) (m : HeaderMap) → header_value name (set_header name v m) ≡ v
unfolding header_value
header_value-set_header_same name v m =
    rw (header_value, fetch_header-set_header_same name v m) refl

-- The keys of a request and of each response that `to_response` makes of it are equal, for the server
-- transaction and for the client's, if the CSeq of the request names its method.
pub to_response-key :
    (new_tag : Bytes) (status_code : ℕ) (request : Request) (r : Response)
    → to_response new_tag status_code request ≡ some r
    → cseq_method (header_value cseq_name request.headers) ≡ some request.method
    → (server_key_of_response r ≡ server_key_of_request request)
      × (client_key_of_response r ≡ client_key_of_request request)
unfolding server_key_of_response server_key_of_request client_key_of_response client_key_of_request
to_response-key new_tag status_code request r h method =
    let (same_via, same_cseq) = to_response-Carries new_tag status_code request r h in
    (rw (same_via, same_cseq, method) refl, rw (same_via, same_cseq, method) refl)

-- The 100 of a server transaction is the response that `to_response` makes.
to_response-trying_response :
    (new_tag : Bytes) (request : Request)
    → to_response new_tag 100 request ≡ some (trying_response request)
unfolding to_response trying_response
to_response-trying_response new_tag request = refl
