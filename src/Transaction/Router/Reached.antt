-- ===== src/Transaction/Router/Reached.antt =====
-- lib/sippet/router.ex: the messages that reach the transaction of a request.
use elixir_sippet.Base.Int.{ℤ, eqb_ℤ}
use elixir_sippet.Base.{
  ℕ, true, false, Bool-cases, Option-cases, none, some, Bytes, equal_refl, equal→eq, ◌≡◌, inl, inr,
  refl, sym, ap, ◌∙◌, arith,
}
use elixir_sippet.Message.HeaderMap.{same_name_iff}
use elixir_sippet.Transaction.Key.Related.{to_response-key}
use elixir_sippet.Transaction.Key.{
  Key, server_key, client_key, same_key, via_branch, cseq_method, client_key_of_request,
  server_key_of_request, server_key_of_response, to_response,
}
use elixir_sippet.Transaction.Message.{
  Request, Response, ack_name, header_value, via_name, cseq_name,
}
use elixir_sippet.Transaction.Router.{
  Registry, lookup, register, start_server, route_request, receive_transport_request,
  receive_transport_response, send_transaction_request, send_transaction_response, casts,
  starts_server, starts_client, module_of, invite,
}
use elixir_sippet.Transaction.Server.Invite.{invite_name}
use elixir_sippet.Transaction.{incoming_request, incoming_response, outgoing_response}
use elixir_sippet.Value.{Name, same_name}

eqb_ℤ_refl : (n : ℤ) → eqb_ℤ n n ≡ true
eqb_ℤ_refl n = ground arith

same_key_refl : (key : Key) → same_key key key ≡ true
unfolding same_key
same_key_refl (client_key b m) = rw (equal_refl b, (same_name_iff m m).1 refl) refl
same_key_refl (server_key b m (h, p)) =
    rw (equal_refl b, (same_name_iff m m).1 refl, equal_refl h, eqb_ℤ_refl p) refl

eqb_ℤ→eq : (m n : ℤ) → eqb_ℤ m n ≡ true → m ≡ n
eqb_ℤ→eq m n h = ground arith

same_name→eq : (a b : Name) → same_name a b ≡ true → a ≡ b
same_name→eq a b h = (same_name_iff a b).0 h

same_key→eq : (k l : Key) → same_key k l ≡ true → k ≡ l
unfolding same_key
same_key→eq (client_key b m) (client_key c n) h = ground (arith, equal→eq b c, same_name→eq m n)
same_key→eq (server_key b m (i, p)) (server_key c n (j, q)) h =
    ground (arith, equal→eq b c, same_name→eq m n, equal→eq i j, eqb_ℤ→eq p q)
same_key→eq (client_key b m) (server_key c n sent_by) h = absurd cc
same_key→eq (server_key b m sent_by) (client_key c n) h = absurd cc

-- A key that was registered where it was not there.
lookup-register :
    (key : Key) (pid : ℕ) (registry : Registry)
    → lookup key registry ≡ none
    → lookup key (register key pid registry) ≡ some pid
unfolding register lookup
lookup-register key pid registry absent = ground (arith, same_key_refl key)

-- A key that is there stays.
lookup-register_there :
    (key other : Key) (pid running : ℕ) (registry : Registry)
    → lookup key registry ≡ some running
    → lookup key (register other pid registry) ≡ some running
unfolding register lookup
lookup-register_there key other pid running registry there =
    elim (Option-cases (lookup other registry)) [
      | inl absent ↦ elim (Bool-cases (same_key other key)) [
        | inl same ↦
            let e = same_key→eq other key same in
            absurd (cc (sym absent ∙ ap (λ k. lookup k registry) e ∙ there))
        | inr differs ↦ rw (register, absent) (rw (lookup, differs) there)
      ]
      | inr (other_pid, e) ↦ rw (register, e) there
    ]

lookup-register_other :
    (key other : Key) (pid : ℕ) (registry : Registry)
    → same_key other key ≡ false
    → lookup key (register other pid registry) ≡ lookup key registry
unfolding register lookup
lookup-register_other key other pid registry differs = elim (Option-cases (lookup other registry)) [
  | inl absent ↦ rw (register, absent) (rw (lookup, differs) refl)
  | inr (running, e) ↦ rw (register, e) refl
]

-- A request whose transaction runs.
pub receive_transport_request-running :
    (request : Request) (key : Key) (later running : ℕ) (registry : Registry)
    → server_key_of_request request ≡ some key
    → lookup key registry ≡ some running
    → receive_transport_request request later registry
      ≡ some (registry, casts running (incoming_request request))
unfolding receive_transport_request route_request
receive_transport_request-running request key later running registry e there =
    rw (receive_transport_request, e) (rw (route_request, there) refl)

-- An INVITE whose transaction does not run.
receive_transport_request-absent :
    (request : Request) (key : Key) (pid : ℕ) (registry : Registry)
    → server_key_of_request request ≡ some key
    → lookup key registry ≡ none
    → request.method ≡ invite_name
    → receive_transport_request request pid registry
      ≡ some (start_server key pid registry, starts_server invite pid)
unfolding receive_transport_request route_request module_of same_name
receive_transport_request-absent request key pid registry e absent is_invite =
    rw (receive_transport_request, e) (rw (route_request, absent, is_invite) refl)

-- A response whose transaction runs.
send_transaction_response-running :
    (response : Response) (key : Key) (running : ℕ) (registry : Registry)
    → server_key_of_response response ≡ some key
    → lookup key registry ≡ some running
    → send_transaction_response response registry
      ≡ some (casts running (outgoing_response response))
unfolding send_transaction_response
send_transaction_response-running response key running registry e there =
    rw (send_transaction_response, e, there) refl

invite-ne-ack :
    (branch host : Bytes) (port : ℤ)
    → same_key
        (server_key branch invite_name (host, port))
        (server_key branch ack_name (host, port))
      ≡ false
unfolding same_key same_name
invite-ne-ack branch host port = rw (equal_refl branch) refl

module _ (request : Request) (branch host : Bytes) (port : ℤ) (pid : ℕ) (registry : Registry)
    (is_invite : request.method ≡ invite_name)
    (topmost : via_branch (header_value via_name request.headers) ≡ some (branch, host, port))
    (no_invite : lookup (server_key branch invite_name (host, port)) registry ≡ none)
    (no_ack : lookup (server_key branch ack_name (host, port)) registry ≡ none) where
  -- The registry behind the start of the transaction.
  abbrev pub opened : Registry
  opened = start_server (server_key branch invite_name (host, port)) pid registry

  request_key : server_key_of_request request ≡ some (server_key branch invite_name (host, port))
  unfolding server_key_of_request
  request_key = rw (topmost, is_invite) refl

  lookup-opened_invite : lookup (server_key branch invite_name (host, port)) opened ≡ some pid
  unfolding start_server
  lookup-opened_invite =
      lookup-register_there (server_key branch invite_name (host, port))
        (server_key branch ack_name (host, port)) pid pid
        (register (server_key branch invite_name (host, port)) pid registry)
        (lookup-register (server_key branch invite_name (host, port)) pid registry no_invite)

  lookup-opened_ack : lookup (server_key branch ack_name (host, port)) opened ≡ some pid
  unfolding start_server
  lookup-opened_ack =
      lookup-register (server_key branch ack_name (host, port)) pid
        (register (server_key branch invite_name (host, port)) pid registry)
        (lookup-register_other (server_key branch ack_name (host, port))
            (server_key branch invite_name (host, port)) pid registry
            (invite-ne-ack branch host port)
          ∙ no_ack)

  -- An INVITE whose transaction does not run yet starts one, if the keys of the INVITE and of its
  -- ACK are free and its CSeq names its method. Then the INVITE that comes again, an ACK with the
  -- same Via values, and each response that `to_response` makes of the INVITE go to that
  -- transaction.
  pub receive_transport_request-reaches :
      (ack : Request) (new_tag : Bytes) (status_code later : ℕ) (response : Response)
      → ack.method ≡ ack_name
      → header_value via_name ack.headers ≡ header_value via_name request.headers
      → to_response new_tag status_code request ≡ some response
      → cseq_method (header_value cseq_name request.headers) ≡ some request.method
      → (receive_transport_request request pid registry ≡ some (opened, starts_server invite pid))
        × (receive_transport_request request later opened
            ≡ some (opened, casts pid (incoming_request request)))
        × (receive_transport_request ack later opened
            ≡ some (opened, casts pid (incoming_request ack)))
        × (send_transaction_response response opened
            ≡ some (casts pid (outgoing_response response)))
  unfolding server_key_of_request
  receive_transport_request-reaches ack new_tag status_code later response is_ack same_via made
        cseq =
      let key = server_key branch invite_name (host, port) in
      let (same_key, _) = to_response-key new_tag status_code request response made cseq in
      let ack_key : server_key_of_request ack ≡ some (server_key branch ack_name (host, port)) =
        rw (same_via, topmost, is_ack) refl in
      (
        receive_transport_request-absent request key pid registry request_key no_invite is_invite,
        receive_transport_request-running request key later pid opened request_key
            lookup-opened_invite,
        receive_transport_request-running ack (server_key branch ack_name (host, port)) later pid
            opened ack_key lookup-opened_ack,
        send_transaction_response-running response key pid opened (same_key ∙ request_key)
            lookup-opened_invite,
      )

-- A request that is sent starts a client transaction, and each response that `to_response` makes of
-- the request goes to that transaction, if its key was free and its CSeq names its method.
pub receive_transport_response-reaches :
    (request : Request) (key : Key) (pid : ℕ) (registry : Registry) (new_tag : Bytes)
    (status_code : ℕ) (response : Response)
    → client_key_of_request request ≡ some key
    → lookup key registry ≡ none
    → to_response new_tag status_code request ≡ some response
    → cseq_method (header_value cseq_name request.headers) ≡ some request.method
    → (send_transaction_request request pid registry
        ≡ some (register key pid registry, starts_client (module_of request.method) pid))
      × (receive_transport_response response (register key pid registry)
          ≡ some (casts pid (incoming_response response)))
unfolding send_transaction_request receive_transport_response
receive_transport_response-reaches request key pid registry new_tag status_code response e free made
      cseq =
    let (_, same_key) = to_response-key new_tag status_code request response made cseq in
    (
      rw (send_transaction_request, e, free) refl,
      rw (receive_transport_response, same_key, e, lookup-register key pid registry free) refl,
    )
