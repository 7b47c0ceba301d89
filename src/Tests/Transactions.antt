-- ===== src/Tests/Transactions.antt =====
-- lib/sippet/transactions: the theorems on the transactions at the INVITE of the tests under test/.
use elixir_sippet.Base.Int.{pos}
use elixir_sippet.Base.{
  ℕ, suc, ◌≤◌, ◌<◌, true, false, List, [], ◌∷◌, ◌++◌, All, none, some, Bytes, codes, ◌≡◌, inl, refl,
  arith, ◌==◌,
}
use elixir_sippet.Transaction.Client.Invite
use elixir_sippet.Transaction.Client.Invite.Ack.{Acknowledges, build_ack-Acknowledges}
use elixir_sippet.Transaction.Client.Invite.Outcomes.{outcomes-le-one}
use elixir_sippet.Transaction.Client.Invite.Resend.{run-final}
use elixir_sippet.Transaction.Client.Invite.Silence.{fresh, silence-fresh, silence-resolved}
use elixir_sippet.Transaction.Client.NonInvite
use elixir_sippet.Transaction.Client.NonInvite.Outcomes.{run-outcomes}
use elixir_sippet.Transaction.Client.{ClientState, new_client}
use elixir_sippet.Transaction.Message.{
  Request, Response, Sippet, HeaderMap, reliable, trying_response, status_code_class, via_name,
  to_name, from_name, call_id_name, cseq_name, max_forwards_name, ack_name, tag, fetch_header,
}
use elixir_sippet.Transaction.Runs.Outcomes.{outcomes}
use elixir_sippet.Transaction.Runs.{repeat, silence}
use elixir_sippet.Transaction.Server.Invite as ServerInvite
use elixir_sippet.Transaction.Server.NonInvite as ServerNonInvite
use elixir_sippet.Transaction.Server.NonInvite.Answers.{run-answers}
use elixir_sippet.Transaction.Server.Invite.Answers.{Settled, run-Settled}
use elixir_sippet.Transaction.Server.Invite.Provisional.{run-still_trying}
use elixir_sippet.Transaction.Server.Invite.Silence.{silence-completed}
use elixir_sippet.Transaction.Server.{ServerState, new_server, ensure_response_target}
use elixir_sippet.Transaction.Timers.{
  timer, t1, t2, timer_a, timer_b, timer_g, timer_h, default_timers, resolve,
}
use elixir_sippet.Transaction.{
  Effect, timeout, send_request, send_response, receive_response, receive_error, shutdown, stopped,
  running, receives, elapses, incoming_request, incoming_response, outgoing_response, error,
  deadline, still_trying, receive_request, Process, start, step, run, supervised_run,
}
use elixir_sippet.Value.{atom, one, many, via, contact, cseq, binary, integer, Params, map_get}

abbrev headers : Bytes → Params → HeaderMap
headers method tags =
    (
      via_name,
      some (
          many (
            via (2, 0) (atom (codes "udp")) (codes "pc33.atlanta.com") (pos 5060)
              ((codes "branch", codes "z9hG4bK776asdhds") ∷ [])
            ∷ [])),
    )
    ∷ (to_name, some (one (contact (codes "Bob") (codes "sip:bob@biloxi.com") tags)))
    ∷ (
      from_name,
      some (
          one (
            contact (codes "Alice") (codes "sip:alice@atlanta.com")
              ((codes "tag", codes "1928301774") ∷ []))),
    )
    ∷ (call_id_name, some (one (binary (codes "a84b4c76e66710@pc33.atlanta.com"))))
    ∷ (cseq_name, some (one (cseq (pos 314159) (atom method))))
    ∷ []

abbrev pub invite : Request
invite = record {
  method = atom (codes "invite");
  request_uri = codes "sip:bob@biloxi.com";
  headers = headers (codes "invite") [];
  source = some (atom (codes "udp"));
  source_peer = none;
}

abbrev response : ℕ → Response
response status_code = record {
  status_code = status_code;
  headers = headers (codes "invite") ((codes "tag", codes "a6c85cf") ∷ []);
  target = none;
  source_peer = none;
}

-- A Sippet instance whose transport is not reliable.
abbrev sippet : Sippet
sippet = record { protocol_reliable = λ protocol. some false; to_integer = λ s. none }

abbrev client : ClientState
client = new_client invite sippet default_timers

abbrev server : ServerState
server = new_server invite sippet default_timers

-- The default timers: seven times the INVITE is sent, and the timeout comes behind 63.5 seconds.
run_silent : silence Invite.enter Invite.handle 7 (fresh client) ≡ (
  repeat 6 (send_request invite ∷ []) ++ receive_error timeout ∷ [],
  stopped shutdown client,
  63500,
)
unfolding Invite.enter Invite.handle start step new_client default_timers
run_silent = refl

invite-unreliable : reliable sippet invite ≡ some false
unfolding reliable
invite-unreliable = refl

default_a : timer client.timers timer_a 500 ≡ 500
unfolding timer new_client default_timers
default_a = refl

default_b : timer client.timers timer_b 32000 ≡ 32000
unfolding timer new_client default_timers
default_b = refl

default_g : timer server.timers timer_g 500 ≡ 500
unfolding timer new_server default_timers
default_g = refl

default_h : timer server.timers timer_h 32000 ≡ 32000
unfolding timer new_server default_timers
default_h = refl

default_t : timer server.timers t2 4000 ≡ 4000
unfolding timer new_server default_timers
default_t = refl

default_t1_positive : 0 < timer (λ name. none) t1 500
unfolding timer
default_t1_positive = omega arith

has_cseq :
    fetch_header cseq_name invite.headers
    ≡ some (some (one (cseq (pos 314159) (atom (codes "invite")))))
unfolding fetch_header
has_cseq = refl

has_to :
    fetch_header to_name invite.headers
    ≡ some (some (one (contact (codes "Bob") (codes "sip:bob@biloxi.com") [])))
unfolding fetch_header
has_to = refl

answered_to :
    fetch_header to_name (response 486).headers
    ≡ some (
        some (
          one (
            contact
              (codes "Bob")
              (codes "sip:bob@biloxi.com")
              ((codes "tag", codes "a6c85cf") ∷ []))))
unfolding fetch_header
answered_to = refl

has_tag : map_get tag ((codes "tag", codes "a6c85cf") ∷ []) ≡ some (codes "a6c85cf")
unfolding map_get
has_tag = refl

final_no_one : (status_code_class (response 486) == 1) ≡ false
unfolding status_code_class
final_no_one = refl

final_no_two : (status_code_class (response 486) == 2) ≡ false
unfolding status_code_class
final_no_two = refl

ringing : (status_code_class (response 180) == 1) ≡ true
unfolding status_code_class
ringing = refl

-- The ACK for the response 486
abbrev pub ack : Request
ack = record {
  method = ack_name;
  request_uri = codes "sip:bob@biloxi.com";
  headers =
      (
        via_name,
        some (
            many (
              via (2, 0) (atom (codes "udp")) (codes "pc33.atlanta.com") (pos 5060)
                ((codes "branch", codes "z9hG4bK776asdhds") ∷ [])
              ∷ [])),
      )
      ∷ (max_forwards_name, some (one (integer (pos 70))))
      ∷ (
        from_name,
        some (
            one (
              contact (codes "Alice") (codes "sip:alice@atlanta.com")
                ((codes "tag", codes "1928301774") ∷ []))),
      )
      ∷ (
        to_name,
        some (
            one (
              contact (codes "Bob") (codes "sip:bob@biloxi.com")
                ((codes "tag", codes "a6c85cf") ∷ []))),
      )
      ∷ (call_id_name, some (one (binary (codes "a84b4c76e66710@pc33.atlanta.com"))))
      ∷ (cseq_name, some (one (cseq (pos 314159) ack_name)))
      ∷ [];
  source = none;
  source_peer = none;
}

ack_built : Invite.build_ack client.request (response 486) ≡ some ack
unfolding Invite.build_ack new_client
ack_built = refl

-- The response that goes to the address of its Via.
abbrev sent : ℕ → Response
sent status_code = record (response status_code) {
  target = some (atom (codes "udp"), codes "pc33.atlanta.com", pos 5060);
}

targeted : ensure_response_target server.sippet (response 486) server.request ≡ some (sent 486)
unfolding ensure_response_target new_server
targeted = refl

ringing_targeted :
    ensure_response_target server.sippet (response 180) server.request ≡ some (sent 180)
unfolding ensure_response_target new_server
ringing_targeted = refl

-- The 100 that goes there.
abbrev trying_sent : Response
trying_sent = record {
  status_code = 100;
  headers =
      (
        via_name,
        some (
            many (
              via (2, 0) (atom (codes "udp")) (codes "pc33.atlanta.com") (pos 5060)
                ((codes "branch", codes "z9hG4bK776asdhds") ∷ [])
              ∷ [])),
      )
      ∷ (
        from_name,
        some (
            one (
              contact (codes "Alice") (codes "sip:alice@atlanta.com")
                ((codes "tag", codes "1928301774") ∷ []))),
      )
      ∷ (to_name, some (one (contact (codes "Bob") (codes "sip:bob@biloxi.com") [])))
      ∷ (call_id_name, some (one (binary (codes "a84b4c76e66710@pc33.atlanta.com"))))
      ∷ (cseq_name, some (one (cseq (pos 314159) (atom (codes "invite")))))
      ∷ [];
  target = some (atom (codes "udp"), codes "pc33.atlanta.com", pos 5060);
  source_peer = none;
}

trying_targeted :
    ensure_response_target server.sippet (trying_response server.request) server.request
    ≡ some trying_sent
unfolding ensure_response_target trying_response new_server
trying_targeted = refl

silence-fresh_example :
    (n time : ℕ) × (silence Invite.enter Invite.handle (suc n) (fresh client) ≡ (
      repeat n (send_request invite ∷ []) ++ receive_error timeout ∷ [],
      stopped shutdown client,
      time,
    ))
    × (32000 ≤ time)
    × (time < 64500)
unfolding new_client
silence-fresh_example =
    silence-fresh client 500 32000 default_a default_b invite-unreliable (omega arith) (omega arith)

silence-resolved_example :
    (n : ℕ) × (silence Invite.enter Invite.handle
        (suc n)
        (fresh (new_client invite sippet (resolve (λ name. none))))
      ≡ (
        repeat n (send_request invite ∷ []) ++ receive_error timeout ∷ [],
        stopped shutdown (new_client invite sippet (resolve (λ name. none))),
        63500,
      ))
unfolding timer
silence-resolved_example =
    silence-resolved invite sippet (λ name. none) refl refl default_t1_positive invite-unreliable

outcomes-le-one_example :
    outcomes
      (run Invite.enter Invite.handle (start Invite.enter Invite.handle Invite.calling client).1 (
        receives (incoming_response (response 180))
        ∷ receives (incoming_response (response 486))
        ∷ receives (incoming_response (response 486))
        ∷ receives (error timeout)
        ∷ [])).0
    ≤ 1
outcomes-le-one_example = outcomes-le-one client (
    receives (incoming_response (response 180))
    ∷ receives (incoming_response (response 486))
    ∷ receives (incoming_response (response 486))
    ∷ receives (error timeout)
    ∷ [])

run-outcomes_example :
    outcomes
      (run NonInvite.enter NonInvite.handle
        (start NonInvite.enter NonInvite.handle NonInvite.trying client).1
        (receives (incoming_response (response 100))
          ∷ receives (incoming_response (response 200))
          ∷ receives deadline
          ∷ [])).0
    ≤ 1
run-outcomes_example = run-outcomes client (
    receives (incoming_response (response 100))
    ∷ receives (incoming_response (response 200))
    ∷ receives deadline
    ∷ [])

build_ack-Acknowledges_example :
    (ack : Request) × (Invite.build_ack invite (response 486) ≡ some ack)
    × Acknowledges invite
        (pos 314159)
        (codes "Bob", codes "sip:bob@biloxi.com", [])
        (codes "a6c85cf")
        ack
build_ack-Acknowledges_example =
    build_ack-Acknowledges invite (response 486) (pos 314159) (atom (codes "invite")) (codes "Bob")
      (codes "sip:bob@biloxi.com") [] (codes "Bob") (codes "sip:bob@biloxi.com")
      ((codes "tag", codes "a6c85cf") ∷ []) (codes "a6c85cf") has_cseq has_to answered_to has_tag

run-final_example :
    (rest : List Effect) × ((run Invite.enter Invite.handle (running Invite.calling client none) (
        receives (incoming_response (response 486))
        ∷ receives (incoming_response (response 486))
        ∷ elapses
        ∷ [])).0
      ≡ receive_response (response 486) ∷ send_request ack ∷ rest)
    × All (λ e. e ≡ send_request ack) rest
run-final_example =
    run-final Invite.calling client none (response 486) ack
      (receives (incoming_response (response 486)) ∷ elapses ∷ []) (inl refl) final_no_one
      final_no_two ack_built

silence-completed_example :
    (n time : ℕ) × (silence ServerInvite.enter ServerInvite.handle
        (suc n)
        (start ServerInvite.enter ServerInvite.handle ServerInvite.completed
          (record server { last_response = some (sent 486) })).1
      ≡ (
        repeat n (send_response (sent 486) ∷ []) ++ receive_error timeout ∷ [],
        stopped shutdown (record server { last_response = some (sent 486) }),
        time,
      ))
    × (32000 ≤ time)
    × (time < 36000)
unfolding new_server
silence-completed_example =
    silence-completed server (response 486) (sent 486) 500 32000 4000 default_g default_h default_t
      targeted invite-unreliable (omega arith) (omega arith) (omega arith)

-- What the supervisor makes of a server transaction that an exception ended.
abbrev started_again : List Effect × Process ServerInvite.State ServerState
started_again = start ServerInvite.enter ServerInvite.handle ServerInvite.proceeding server

server-unreliable : reliable server.sippet server.request ≡ some false
unfolding reliable new_server
server-unreliable = refl

run-Settled_example :
    (rest : List Effect) × ((supervised_run ServerInvite.enter ServerInvite.handle started_again
        (running ServerInvite.proceeding server none)
        (receives (outgoing_response (response 486))
          ∷ receives (incoming_request invite)
          ∷ elapses
          ∷ [])).0
      ≡ send_response (sent 486) ∷ rest)
    × All (Settled (response 486) (sent 486) false) rest
run-Settled_example =
    run-Settled (response 486) (sent 486) false started_again server none
      (receives (incoming_request invite) ∷ elapses ∷ []) final_no_one final_no_two targeted
      server-unreliable

-- A Sippet instance that does not know the transport of the Via.
abbrev unknown : ServerState
unknown =
    new_server invite (record { protocol_reliable = λ protocol. none; to_integer = λ s. none })
      default_timers

-- There the exception behind the final response starts the transaction again, and the core gets the
-- request again.
run_unknown :
    (supervised_run ServerInvite.enter ServerInvite.handle
      (start ServerInvite.enter ServerInvite.handle ServerInvite.proceeding unknown)
      (running ServerInvite.proceeding unknown none)
      (receives (outgoing_response (response 486)) ∷ [])).0
    ≡ send_response (sent 486) ∷ receive_request invite ∷ []
unfolding supervised_run start ServerInvite.enter ServerInvite.handle new_server
run_unknown = refl

run-still_trying_example :
    (run ServerInvite.enter ServerInvite.handle
      (running ServerInvite.proceeding server (some (200, still_trying)))
      (receives (outgoing_response (response 180))
        ∷ elapses
        ∷ receives (incoming_request invite)
        ∷ [])).0
    ≡ send_response (sent 180) ∷ send_response trying_sent ∷ send_response trying_sent ∷ []
run-still_trying_example =
    run-still_trying server 200 (response 180) (sent 180) trying_sent invite ringing
      ringing_targeted trying_targeted

run-answers_example :
    (rest : List Effect) × ((supervised_run ServerNonInvite.enter ServerNonInvite.handle
        (start ServerNonInvite.enter ServerNonInvite.handle ServerNonInvite.trying server)
        (running ServerNonInvite.trying server none)
        (receives (outgoing_response (response 486))
          ∷ receives (incoming_request invite)
          ∷ receives (error timeout)
          ∷ elapses
          ∷ [])).0
      ≡ send_response (sent 486) ∷ rest)
    × All (λ e. e ≡ send_response (sent 486)) rest
run-answers_example =
    run-answers (response 486) (sent 486) false
      (start ServerNonInvite.enter ServerNonInvite.handle ServerNonInvite.trying server)
      ServerNonInvite.trying server none
      (receives (incoming_request invite) ∷ receives (error timeout) ∷ elapses ∷ []) (inl refl)
      final_no_one targeted server-unreliable
