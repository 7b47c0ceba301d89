-- ===== src/Transaction/Server/Target.antt =====
-- lib/sippet/transactions/server.ex: the target of a response that is sent again.
use elixir_sippet.Base.Int.{ℤ}
use elixir_sippet.Base.{Bytes, [], ◌∷◌, Option, none, some, ◌≡◌, refl, ap, ◌∙◌, arith}
use elixir_sippet.Transaction.Message.{HeaderMap, Request, Response, Sippet, header_value, via_name}
use elixir_sippet.Transaction.Server.{
  ServerState, via_target, ensure_by, ensure_response_target, responding,
}
use elixir_sippet.Transaction.{send_response, Callback}
use elixir_sippet.Value.{Name, Value}

via_target-target :
    (sippet : Sippet) (source : Name) (v : Option Value) (r s : Response)
    → via_target sippet source v r ≡ some s
    → via_target sippet source v s ≡ some s
unfolding via_target
via_target-target sippet source v r s h = ground arith

via_target-keeps :
    (sippet : Sippet) (source : Name) (v : Option Value) (r s : Response)
    → via_target sippet source v r ≡ some s
    → (s.headers ≡ r.headers) × (s.source_peer ≡ r.source_peer)
unfolding via_target
via_target-keeps sippet source v r s h = ground arith

-- By the target of the response, and with no target where it was sent before.
sourced :
    (sippet : Sippet) (r s : Response) (request : Request) (source : Name)
    (target : Option (Name × Bytes × ℤ))
    → via_target sippet source
        (header_value via_name r.headers)
        (record r { source_peer = request.source_peer })
      ≡ some s
    → ensure_by target (some source) sippet s request ≡ some s
unfolding ensure_by
sourced sippet r s request source (some t) h = refl
sourced sippet r s request source none h =
    let v = header_value via_name r.headers in
    let r' = record r { source_peer = request.source_peer } in
    let (headers, peer) = via_target-keeps sippet source v r' s h in
    let again = via_target-target sippet source v r' s h in
    let fields : record s { source_peer = request.source_peer } ≡ s = cc peer in
    ap
      (λ (headers : HeaderMap).
        via_target sippet source (header_value via_name headers)
          (record s { source_peer = request.source_peer }))
      headers
    ∙ ap (via_target sippet source v) fields
    ∙ again

unsourced :
    (sippet : Sippet) (s : Response) (request : Request) (target : Option (Name × Bytes × ℤ))
    → ensure_by target none sippet s request ≡ some s
unfolding ensure_by
unsourced sippet s request none = refl
unsourced sippet s request (some t) = refl

same_by :
    (sippet : Sippet) (r s : Response) (request : Request) (target : Option (Name × Bytes × ℤ))
    (source : Option Name)
    → target ≡ r.target
    → ensure_by target source sippet r request ≡ some s
    → ensure_by s.target source sippet s request ≡ some s
unfolding ensure_by
same_by sippet r s request target none e h = unsourced sippet s request s.target
same_by sippet r s request none (some source) e h = sourced sippet r s request source s.target h
same_by sippet r s request (some t) (some source) e h =
    let there : s.target ≡ some t = cc in rw there refl

-- A response that was sent keeps its target when it is sent again.
pub ensure_response_target-same :
    (sippet : Sippet) (r s : Response) (request : Request)
    → ensure_response_target sippet r request ≡ some s
    → ensure_response_target sippet s request ≡ some s
unfolding ensure_response_target
ensure_response_target-same sippet r s request h =
    same_by sippet r s request r.target request.source refl h

-- What `send_response` does with a response whose target can be found.
pub responding-ensured :
    {S : Type 0} (returns : ServerState → Callback S ServerState) (r s : Response)
    (state : ServerState)
    → ensure_response_target state.sippet r state.request ≡ some s
    → responding returns r state
      ≡ (send_response s ∷ [], returns (record state { last_response = some s }))
unfolding responding
responding-ensured returns r s state h = rw (responding, h) refl

-- What it does when such a response is sent again.
pub responding-again :
    {S : Type 0} (returns : ServerState → Callback S ServerState) (r s : Response)
    (state : ServerState)
    → ensure_response_target state.sippet r state.request ≡ some s
    → responding returns s state
      ≡ (send_response s ∷ [], returns (record state { last_response = some s }))
responding-again returns r s state h =
    responding-ensured returns s s state
      (ensure_response_target-same state.sippet r s state.request h)
