-- ===== src/Mcp/Tests.antt =====
-- A session with a request that timed out and whose response comes before it goes on.
use mew_code.Prelude.{
  ℕ, nat_eq, ◌≡◌, ◌≢◌, ◌↔◌, refl, true, false, none, some, [], contains, keep, Outcome, ok, err,
}
use mew_code.Prelude.Text.{codes}
use mew_code.Prelude.Dict.{lookup, insert}
use mew_code.Mcp.Peer.{
  McpError, Future, MessageId, JsonRpcMessage, JsonRpcPeer, new_peer, pop, fail, ensure_available,
  start_request, interrupt, settle, answer, respond, dispatch, receive, close,
}
use mew_code.Mcp.Peer.Keeps.{failed_settles}
use mew_code.Mcp.Peer.Steps.{Step, Reached}
use mew_code.Mcp.Peer.Answers.{IsResponse, receive_raises}

abbrev started : Outcome McpError (JsonRpcPeer × ℕ) → JsonRpcPeer
started (ok (p, id)) = p
started (err e) = new_peer

abbrev asked : JsonRpcPeer
asked = started (start_request new_peer)

asked-Reached : Reached asked
unfolding start_request ensure_available insert
asked-Reached = Reached.next Reached.start (Step.requested 1 refl)

abbrev response : JsonRpcMessage
response = record {
  method = none;
  id = MessageId.number 1;
  result = some (codes "r");
  has_error = false;
}

abbrev late : JsonRpcPeer
late = interrupt 1 asked

receive_raises_example : ((receive none (some response) late).1 ≡ true) ↔ (
    (id : ℕ) × IsResponse response id
    × (contains late.pending id ≡ true)
    × (lookup id late.futures ≡ some Future.cancelled))
receive_raises_example =
    receive_raises none response late (Reached.next asked-Reached (Step.interrupted 1))

-- The late response raises.
late_raises : (receive none (some response) late).1 ≡ true
unfolding receive dispatch respond answer settle interrupt start_request ensure_available insert
    lookup contains pop keep
late_raises = refl

abbrev answered : JsonRpcPeer
answered = (receive none (some response) asked).0

failed_settles_example :
    ((close asked).pending ≡ [])
    × ((id : ℕ) → lookup id (close asked).futures ≢ some Future.waiting)
    × ((e : McpError) × (start_request (close asked) ≡ err e))
unfolding close fail start_request ensure_available
failed_settles_example = failed_settles (close asked) (Reached.next asked-Reached Step.closed) refl
