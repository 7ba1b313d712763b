-- ===== src/Mcp/Peer/Keeps.antt =====
-- Every step keeps what holds of a reached peer, and a peer that has failed leaves nothing waiting.
use mathlib.Core.Path.{subst}
use mew_code.Prelude.{
  ℕ, ◌+◌, ◌<◌, ◌≡◌, ◌≢◌, refl, Bool, true, false, ◌||◌, Option, none, some, List, [], ◌∷◌, ◌++◌,
  contains, keep, ◌==◌, nat_eq, Bool-cases, Option-cases, ok, err, inl, inr, if_ind, arith,
}
use mew_code.Prelude.Text.{Text, text_eq, codes}
use mew_code.Prelude.Dict.{lookup, insert, is_some, lookup-insert}
use mew_code.Mcp.Peer.{
  McpError, Future, MessageId, JsonRpcMessage, JsonRpcPeer, Ending, is_waiting, pop, fail,
  ensure_available, start_request, interrupt, end_request, handle_server_request, protocol_error,
  settle, answer, serve, respond, dispatch, receive, unavailable_error, close, or_else,
}
use mew_code.Mcp.Peer.Steps.{
  Step, Reached, IsPeer, contains-pop, contains-snoc, lookup-fail_all, put, lookup-put,
}

module _ (p : JsonRpcPeer) (c : IsPeer p) where
  -- A future is given a value, or dropped, and its request is pending no more.
  put-IsPeer :
      (id : ℕ) (v : Future)
      → is_waiting (some v) ≡ false
      → IsPeer (record p { pending = pop id p.pending; futures = put id v p.futures })
  unfolding pop keep
  put-IsPeer id v done = record {
    waiting_pending = λ j h. ground (
      arith,
      lookup-put id j v p.futures,
      c.waiting_pending j,
      contains-pop id j p.pending,
      nat_eq.beq_iff id j,
      nat_eq.beq_iff j id,
    );
    pending_live = λ j h. ground (
      arith,
      lookup-put id j v p.futures,
      c.pending_live j,
      contains-pop id j p.pending,
      nat_eq.beq_iff id j,
      nat_eq.beq_iff j id,
    );
    given_out = λ j f h. elim (Option-cases (lookup j p.futures)) [
      | inl missing ↦ absurd (ground (arith, lookup-put id j v p.futures))
      | inr (g, old) ↦ c.given_out j g old
    ];
    failed_empty = λ h. rw (c.failed_empty h) refl;
    closed_failed = c.closed_failed;
  }

  interrupt-IsPeer : (id : ℕ) → IsPeer (interrupt id p)
  unfolding interrupt
  interrupt-IsPeer id = elim (Bool-cases (is_waiting (lookup id p.futures))) [
    | inr ends ↦ rw ends c
    | inl waits ↦ rw waits (record {
      waiting_pending =
          λ j h. ground (arith, lookup-insert id j Future.cancelled p.futures, c.waiting_pending j);
      pending_live =
          λ j h. ground (arith, lookup-insert id j Future.cancelled p.futures, c.pending_live j);
      given_out = λ j f h. elim (Option-cases (lookup j p.futures)) [
        | inl missing ↦
            absurd
              (ground (arith, lookup-insert id j Future.cancelled p.futures, nat_eq.beq_iff id j))
        | inr (g, old) ↦ c.given_out j g old
      ];
      failed_empty = c.failed_empty;
      closed_failed = c.closed_failed;
    })
  ]

-- After a failure no future waits, whatever else the peer was.
fail-IsPeer :
    (p : JsonRpcPeer) (e : McpError)
    → ((id : ℕ) → lookup id p.futures ≡ some Future.waiting → contains p.pending id ≡ true)
    → ((id : ℕ) (f : Future) → lookup id p.futures ≡ some f → id < p.next_id)
    → IsPeer (fail e p)
unfolding fail contains
fail-IsPeer p e waits given =
    let e' = or_else p.failure e in
    record {
      waiting_pending =
          λ j h. absurd (ground (arith, lookup-fail_all e' p.pending p.futures j, waits j));
      pending_live = λ j h. absurd (ground arith);
      given_out = λ j f h. elim (Option-cases (lookup j p.futures)) [
        | inl missing ↦ absurd (ground (arith, lookup-fail_all e' p.pending p.futures j))
        | inr (g, old) ↦ given j g old
      ];
      failed_empty = λ h. refl;
      closed_failed = λ h. refl;
    }

start_request-IsPeer :
    (p p' : JsonRpcPeer) (id : ℕ) → IsPeer p → start_request p ≡ ok (p', id) → IsPeer p'
unfolding start_request ensure_available contains
start_request-IsPeer p p' id c h =
    let started : JsonRpcPeer = record p {
      next_id = p.next_id + 1;
      pending = p.pending ++ p.next_id ∷ [];
      futures = insert p.next_id Future.waiting p.futures;
    } in
    let same : started ≡ p' = ground arith in
    let free : (p.closed || is_some p.failure) ≡ false = ground arith in
    subst IsPeer same (record {
      waiting_pending = λ j h. ground (
        arith,
        lookup-insert p.next_id j Future.waiting p.futures,
        c.waiting_pending j,
        contains-snoc p.pending p.next_id j,
        nat_eq.beq_iff p.next_id j,
      );
      pending_live = λ j h. ground (
        arith,
        lookup-insert p.next_id j Future.waiting p.futures,
        c.pending_live j,
        contains-snoc p.pending p.next_id j,
      );
      given_out = λ j f h. elim (Bool-cases (p.next_id == j)) [
        | inl new ↦ ground (arith, nat_eq.beq_iff p.next_id j)
        | inr old ↦
            let below =
              c.given_out j f
                (ground (arith, lookup-insert p.next_id j Future.waiting p.futures)) in
            omega arith
      ];
      failed_empty = λ h. absurd (ground arith);
      closed_failed = λ h. absurd (ground arith);
    })

settle-IsPeer :
    (id : ℕ) (v : Future) (p : JsonRpcPeer)
    → IsPeer p
    → is_waiting (some v) ≡ false
    → IsPeer (settle id v (record p { pending = pop id p.pending })).0
unfolding settle
settle-IsPeer id v p c done = elim (Bool-cases (is_waiting (lookup id p.futures))) [
  | inl waits ↦ let kept = put-IsPeer p c id v done in rw waits (rw waits at kept)
  | inr ends ↦ let kept = put-IsPeer p c id v done in rw ends (rw ends at kept)
]

fail_of-IsPeer : (p : JsonRpcPeer) (e : McpError) → IsPeer p → IsPeer (fail e p)
fail_of-IsPeer p e c = fail-IsPeer p e c.waiting_pending c.given_out

end_request-IsPeer :
    (id : ℕ) (ending : Ending) (p : JsonRpcPeer) → IsPeer p → IsPeer (end_request id ending p)
unfolding end_request
end_request-IsPeer id Ending.returned p c = c
end_request-IsPeer id Ending.timed_out p c = put-IsPeer p c id Future.dropped refl
end_request-IsPeer id Ending.cancelled p c = put-IsPeer p c id Future.dropped refl
end_request-IsPeer id (Ending.raised e) p c =
    let kept = put-IsPeer p c id Future.dropped refl in
    if_ind IsPeer e.session_fatal (λ _. fail_of-IsPeer _ e kept) (λ _. kept)
end_request-IsPeer id Ending.broke p c =
    fail_of-IsPeer _ (protocol_error true) (put-IsPeer p c id Future.dropped refl)

answered-IsPeer :
    (p : JsonRpcPeer) (answers : List Bool) → IsPeer p → IsPeer (record p { sent = answers })
answered-IsPeer p answers c = record {
  waiting_pending = c.waiting_pending;
  pending_live = c.pending_live;
  given_out = c.given_out;
  failed_empty = c.failed_empty;
  closed_failed = c.closed_failed;
}

handle_server_request-IsPeer :
    (send : Option McpError) (method : Text) (p : JsonRpcPeer)
    → IsPeer p
    → IsPeer (handle_server_request send method p)
unfolding handle_server_request
handle_server_request-IsPeer none method p c = answered-IsPeer p _ c
handle_server_request-IsPeer (some e) method p c =
    let kept = answered-IsPeer p (p.sent ++ (method == codes "ping") ∷ []) c in
    if_ind IsPeer e.session_fatal (λ _. fail_of-IsPeer _ e kept) (λ _. kept)

serve-IsPeer :
    (send : Option McpError) (method : Text) (i : MessageId) (p : JsonRpcPeer)
    → IsPeer p
    → IsPeer (serve send method i p)
unfolding serve
serve-IsPeer send method MessageId.absent p c = c
serve-IsPeer send method MessageId.negative p c = handle_server_request-IsPeer send method p c
serve-IsPeer send method MessageId.invalid p c = handle_server_request-IsPeer send method p c
serve-IsPeer send method (MessageId.number id) p c = handle_server_request-IsPeer send method p c

answer-IsPeer :
    (o : Option Text) (has_error : Bool) (id : ℕ) (p : JsonRpcPeer)
    → IsPeer p
    → IsPeer (answer o has_error id p).0
unfolding answer
answer-IsPeer none false id p c = fail_of-IsPeer p (protocol_error true) c
answer-IsPeer (some value) true id p c = fail_of-IsPeer p (protocol_error true) c
answer-IsPeer none true id p c = settle-IsPeer id (Future.exception (protocol_error false)) p c refl
answer-IsPeer (some value) false id p c = settle-IsPeer id (Future.result value) p c refl

respond-IsPeer :
    (i : MessageId) (m : JsonRpcMessage) (p : JsonRpcPeer) → IsPeer p → IsPeer (respond i m p).0
unfolding respond
respond-IsPeer MessageId.absent m p c = fail_of-IsPeer p (protocol_error true) c
respond-IsPeer MessageId.invalid m p c = fail_of-IsPeer p (protocol_error true) c
respond-IsPeer MessageId.negative m p c = c
respond-IsPeer (MessageId.number id) m p c =
    if_ind {A = JsonRpcPeer × Bool} (λ z. IsPeer z.0) (contains p.pending id)
      (λ _. answer-IsPeer m.result m.has_error id p c) (λ _. c)

dispatch-IsPeer :
    (send : Option McpError) (method : Option Text) (m : JsonRpcMessage) (p : JsonRpcPeer)
    → IsPeer p
    → IsPeer (dispatch send method m p).0
unfolding dispatch
dispatch-IsPeer send none m p c = respond-IsPeer m.id m p c
dispatch-IsPeer send (some method) m p c = serve-IsPeer send method m.id p c

receive-IsPeer :
    (send : Option McpError) (o : Option JsonRpcMessage) (p : JsonRpcPeer)
    → IsPeer p
    → IsPeer (receive send o p).0
unfolding receive
receive-IsPeer send none p c = fail_of-IsPeer p (protocol_error true) c
receive-IsPeer send (some m) p c = dispatch-IsPeer send m.method m p c

close-IsPeer : (p : JsonRpcPeer) → IsPeer p → IsPeer (close p)
unfolding close
close-IsPeer p c =
    if_ind IsPeer p.closed (λ _. c)
      (λ _. fail-IsPeer (record p { closed = true }) _ c.waiting_pending c.given_out)

step-IsPeer : (p p' : JsonRpcPeer) → IsPeer p → Step p p' → IsPeer p'
step-IsPeer p p' c (Step.requested id h) = start_request-IsPeer p p' id c h
step-IsPeer p _ c (Step.interrupted id) = interrupt-IsPeer p c id
step-IsPeer p _ c (Step.ended id ending) = end_request-IsPeer id ending p c
step-IsPeer p _ c (Step.received send m) = receive-IsPeer send m p c
step-IsPeer p _ c (Step.failed e) = fail_of-IsPeer p e c
step-IsPeer p _ c Step.closed = close-IsPeer p c

pub Reached-IsPeer : (p : JsonRpcPeer) → Reached p → IsPeer p
unfolding lookup contains
Reached-IsPeer _ Reached.start = record {
  waiting_pending = λ id h. absurd (ground arith);
  pending_live = λ id h. absurd (ground arith);
  given_out = λ id f h. absurd (ground arith);
  failed_empty = λ h. refl;
  closed_failed = λ h. absurd (ground arith);
}
Reached-IsPeer p (Reached.next {p = before} r s) = step-IsPeer before p (Reached-IsPeer before r) s

-- Once a reached peer has failed or was closed nothing is pending and no request's future waits, so no
-- request waits for ever; and no further request starts.
pub failed_settles :
    (p : JsonRpcPeer)
    → Reached p
    → (p.closed || is_some p.failure) ≡ true
    → (p.pending ≡ [])
      × ((id : ℕ) → lookup id p.futures ≢ some Future.waiting)
      × ((e : McpError) × (start_request p ≡ err e))
unfolding start_request ensure_available contains
failed_settles p r h =
    let c = Reached-IsPeer p r in
    let failed : is_some p.failure ≡ true = ground (arith, c.closed_failed) in
    let empty = c.failed_empty failed in
    (
      empty,
      (λ id w. absurd (ground (arith, c.waiting_pending id))),
      (or_else p.failure unavailable_error, rw h refl),
    )
