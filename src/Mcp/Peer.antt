-- ===== src/Mcp/Peer.antt =====
-- src/mewcode/mcp/jsonrpc.py: JsonRpcPeer, the requests of a session and what ends them.
-- The peer has no id factory, so a request's future is named by the request's identifier. A coroutine
-- is cut where it waits: `request` into its start and its end, with the interruption of its wait
-- between them. The transport's result of a send is an argument; the text of an error is left out.
pub mod Steps
pub mod Keeps
pub mod Answers
use mew_code.Prelude.{
  ℕ, suc, ◌+◌, Bool, true, false, not, ◌&&◌, ◌||◌, Option, none, some, List, [], ◌∷◌, ◌++◌,
  contains, keep, ◌==◌, nat_eq, Outcome, ok, err, ◌>>=◌, ◌>>◌, raise_if, if◌then◌else◌,
}
use mew_code.Prelude.Dict.{Dict, lookup, insert, is_some}
use mew_code.Prelude.Text.{Text, text_eq, codes}

pub data McpErrorClass : Type 0 where
  transport protocol request_timeout unavailable : McpErrorClass

pub record McpError : Type 0 where
  pub class_of : McpErrorClass
  pub session_fatal : Bool

-- A future: nothing yet, what it was given, cancelled by the interruption of its wait, or dropped: its
-- request ended and nothing waits for it.
pub data Future : Type 0 where
  waiting cancelled dropped : Future
  result : Text → Future
  exception : McpError → Future

-- The identifier of a message: absent, an integer, an integer below 0, or no integer.
pub data MessageId : Type 0 where
  absent negative invalid : MessageId
  number : ℕ → MessageId

-- A message with the version 2.0: its method if that is a text, its result and whether it has an error.
pub record JsonRpcMessage : Type 0 where
  pub method : Option Text
  pub id : MessageId
  pub result : Option Text
  pub has_error : Bool

-- `sent` is what `_handle_server_request` answered: whether to a ping, for each request of the server.
pub record JsonRpcPeer : Type 0 where
  pub next_id : ℕ
  pub pending : List ℕ
  pub futures : Dict ℕ Future
  pub failure : Option McpError
  pub closed : Bool
  pub sent : List Bool

abbrev pub new_peer : JsonRpcPeer
new_peer = record {
  next_id = 1;
  pending = [];
  futures = [];
  failure = none;
  closed = false;
  sent = [];
}

abbrev pub protocol_error : Bool → McpError
protocol_error fatal = record { class_of = McpErrorClass.protocol; session_fatal = fatal }

abbrev pub unavailable_error : McpError
unavailable_error = record { class_of = McpErrorClass.unavailable; session_fatal = true }

abbrev pub or_else : Option McpError → McpError → McpError
or_else none e = e
or_else (some e) d = e

-- future.done()
abbrev pub is_waiting : Option Future → Bool
is_waiting (some Future.waiting) = true
is_waiting _ = false

-- self._pending.pop(request_id, None)
unfoldable pub pop : ℕ → List ℕ → List ℕ
pop id pending = keep (λ j. not (j == id)) pending

-- The loop of `fail`
unfoldable pub fail_all : McpError → List ℕ → Dict ℕ Future → Dict ℕ Future
fail_all e [] futures = futures
fail_all e (id ∷ ids) futures =
    fail_all e ids
      (if is_waiting (lookup id futures) then insert id (Future.exception e) futures else futures)

unfoldable pub fail : McpError → JsonRpcPeer → JsonRpcPeer
fail error p =
    let failure = or_else p.failure error in
    record p {
      failure = some failure;
      pending = [];
      futures = fail_all failure p.pending p.futures;
    }

-- _ensure_available
unfoldable pub ensure_available : JsonRpcPeer → Outcome McpError (Unit {0})
ensure_available p = raise_if (p.closed || is_some p.failure) (or_else p.failure unavailable_error)

-- The start of `request`, with _allocate_id; the result is the identifier.
unfoldable pub start_request : JsonRpcPeer → Outcome McpError (JsonRpcPeer × ℕ)
start_request p = do
  ensure_available p
  ok (
    record p {
      next_id = p.next_id + 1;
      pending = p.pending ++ p.next_id ∷ [];
      futures = insert p.next_id Future.waiting p.futures;
    },
    p.next_id,
  )

-- The timeout or the cancellation of a request that waits for its future: the future is cancelled at
-- once, and the request goes on in `end_request` later.
unfoldable pub interrupt : ℕ → JsonRpcPeer → JsonRpcPeer
interrupt id p =
    if is_waiting (lookup id p.futures)
    then record p { futures = insert id Future.cancelled p.futures }
    else p

-- What `request` ends with: its result, or the exception of the `except` clauses in their order.
pub data Ending : Type 0 where
  returned timed_out cancelled broke : Ending
  raised : McpError → Ending

abbrev drop_future : ℕ → Dict ℕ Future → Dict ℕ Future
drop_future id futures =
    if is_waiting (lookup id futures) then insert id Future.dropped futures else futures

abbrev without : ℕ → JsonRpcPeer → JsonRpcPeer
without id p = record p { pending = pop id p.pending; futures = drop_future id p.futures }

-- The end of `request`. `_best_effort_cancel` only sends. A result is that of a future, which is
-- pending no more.
unfoldable pub end_request : ℕ → Ending → JsonRpcPeer → JsonRpcPeer
end_request id Ending.returned p = p
end_request id Ending.timed_out p = without id p
end_request id Ending.cancelled p = without id p
end_request id (Ending.raised e) p = if e.session_fatal then fail e (without id p) else without id p
end_request id Ending.broke p = fail (protocol_error true) (without id p)

abbrev fail_if_fatal : Option McpError → JsonRpcPeer → JsonRpcPeer
fail_if_fatal none p = p
fail_if_fatal (some e) p = if e.session_fatal then fail e p else p

-- _handle_server_request; `send` is what the send raises
unfoldable pub handle_server_request : Option McpError → Text → JsonRpcPeer → JsonRpcPeer
handle_server_request send method p =
    fail_if_fatal send (record p { sent = p.sent ++ (method == codes "ping") ∷ [] })

-- _protocol_failure
abbrev pub protocol_failure : JsonRpcPeer → JsonRpcPeer
protocol_failure p = fail (protocol_error true) p

-- future.set_result, future.set_exception: the second component is whether it raises an
-- InvalidStateError
unfoldable pub settle : ℕ → Future → JsonRpcPeer → JsonRpcPeer × Bool
settle id value p =
    if is_waiting (lookup id p.futures)
    then (record p { futures = insert id value p.futures }, false)
    else (p, true)

-- The part of `receive` for a response with the identifier of a pending request: its result, and
-- whether it has an error.
unfoldable pub answer : Option Text → Bool → ℕ → JsonRpcPeer → JsonRpcPeer × Bool
answer none false id p = (protocol_failure p, false)
answer (some value) true id p = (protocol_failure p, false)
answer none true id p =
    settle id (Future.exception (protocol_error false)) (record p { pending = pop id p.pending })
answer (some value) false id p =
    settle id (Future.result value) (record p { pending = pop id p.pending })

-- The part for a message with a method
unfoldable pub serve : Option McpError → Text → MessageId → JsonRpcPeer → JsonRpcPeer
serve send method MessageId.absent p = p
serve send method _ p = handle_server_request send method p

-- The part for a message without one
unfoldable pub respond : MessageId → JsonRpcMessage → JsonRpcPeer → JsonRpcPeer × Bool
respond MessageId.absent m p = (protocol_failure p, false)
respond MessageId.invalid m p = (protocol_failure p, false)
respond MessageId.negative m p = (p, false)
respond (MessageId.number id) m p =
    if contains p.pending id then answer m.result m.has_error id p else (p, false)

unfoldable pub dispatch :
    Option McpError → Option Text → JsonRpcMessage → JsonRpcPeer → JsonRpcPeer × Bool
dispatch send (some method) m p = (serve send method m.id p, false)
dispatch send none m p = respond m.id m p

-- receive, none being no object or one of another version; the second component is whether it raises
unfoldable pub receive : Option McpError → Option JsonRpcMessage → JsonRpcPeer → JsonRpcPeer × Bool
receive send none p = (protocol_failure p, false)
receive send (some m) p = dispatch send m.method m p

unfoldable pub close : JsonRpcPeer → JsonRpcPeer
close p =
    if p.closed then p else fail (or_else p.failure unavailable_error) (record p { closed = true })
