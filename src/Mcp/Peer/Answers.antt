-- ===== src/Mcp/Peer/Answers.antt =====
-- When the receipt of a message raises.
use mew_code.Prelude.{
  ℕ, ◌≡◌, ◌↔◌, refl, ap, ◌∙◌, Bool, true, false, not, Option, none, some, contains, nat_eq,
  Bool-cases, inl, inr, arith,
}
use mew_code.Prelude.Text.{Text, text_eq}
use mew_code.Prelude.Dict.{lookup, is_some}
use mew_code.Mcp.Peer.{
  McpError, Future, MessageId, JsonRpcMessage, JsonRpcPeer, is_waiting, settle, answer, respond,
  dispatch, receive,
}
use mew_code.Mcp.Peer.Keeps.{Reached-IsPeer}
use mew_code.Mcp.Peer.Steps.{Reached, is_live}

-- Exactly one of a result and an error
abbrev pub IsResponse : JsonRpcMessage → ℕ → Type 0
IsResponse m id =
    (m.method ≡ none) × (m.id ≡ MessageId.number id) × (is_some m.result ≡ not m.has_error)

is_live-cancelled :
    (o : Option Future) → is_live o ≡ true → is_waiting o ≡ false → o ≡ some Future.cancelled
is_live-cancelled none h k = absurd (ground arith)
is_live-cancelled (some Future.waiting) h k = absurd (ground arith)
is_live-cancelled (some Future.cancelled) h k = refl
is_live-cancelled (some Future.dropped) h k = absurd (ground arith)
is_live-cancelled (some (Future.result v)) h k = absurd (ground arith)
is_live-cancelled (some (Future.exception e)) h k = absurd (ground arith)

answer-raises :
    (o : Option Text) (has_error : Bool) (id : ℕ) (p : JsonRpcPeer)
    → ((answer o has_error id p).1 ≡ true)
      ↔ ((is_some o ≡ not has_error) × (is_waiting (lookup id p.futures) ≡ false))
unfolding answer settle
answer-raises none false id p = (λ h. absurd (ground arith), λ h. absurd (ground arith))
answer-raises (some value) true id p = (λ h. absurd (ground arith), λ h. absurd (ground arith))
answer-raises none true id p = (λ h. (refl, ground arith), λ h. ground arith)
answer-raises (some value) false id p = (λ h. (refl, ground arith), λ h. ground arith)

respond-raises :
    (i : MessageId) (m : JsonRpcMessage) (p : JsonRpcPeer)
    → (respond i m p).1 ≡ true
    → (id : ℕ) × (i ≡ MessageId.number id)
      × (contains p.pending id ≡ true)
      × (is_some m.result ≡ not m.has_error)
      × (is_waiting (lookup id p.futures) ≡ false)
unfolding respond
respond-raises MessageId.absent m p h = absurd (ground arith)
respond-raises MessageId.invalid m p h = absurd (ground arith)
respond-raises MessageId.negative m p h = absurd (ground arith)
respond-raises (MessageId.number id) m p h = elim (Bool-cases (contains p.pending id)) [
  | inr unknown ↦ absurd (ground arith)
  | inl known ↦
      let (one, ends) = (answer-raises m.result m.has_error id p).0 (ground arith) in
      (id, refl, known, one, ends)
]

dispatch-raises :
    (send : Option McpError) (method : Option Text) (m : JsonRpcMessage) (p : JsonRpcPeer)
    → (dispatch send method m p).1 ≡ true
    → (method ≡ none) × ((respond m.id m p).1 ≡ true)
unfolding dispatch
dispatch-raises send none m p h = (refl, h)
dispatch-raises send (some method) m p h = absurd (ground arith)

dispatch-respond :
    (send : Option McpError) (method : Option Text) (m : JsonRpcMessage) (p : JsonRpcPeer)
    → method ≡ none
    → dispatch send method m p ≡ respond m.id m p
unfolding dispatch
dispatch-respond send method m p e = rw e refl

respond-answer :
    (i : MessageId) (id : ℕ) (m : JsonRpcMessage) (p : JsonRpcPeer)
    → i ≡ MessageId.number id
    → contains p.pending id ≡ true
    → respond i m p ≡ answer m.result m.has_error id p
unfolding respond
respond-answer i id m p e known = rw (e, known) refl

-- In a reached peer the receipt of a message raises exactly where it is the response to a pending request
-- whose future was cancelled: its wait timed out or was cancelled, and it has not yet gone on.
pub receive_raises :
    (send : Option McpError) (m : JsonRpcMessage) (p : JsonRpcPeer)
    → Reached p
    → ((receive send (some m) p).1 ≡ true) ↔ (
        (id : ℕ) × IsResponse m id
        × (contains p.pending id ≡ true)
        × (lookup id p.futures ≡ some Future.cancelled))
unfolding receive
receive_raises send m p r = (
  (λ h.
      let (answered, raised) = dispatch-raises send m.method m p h in
      let (id, of, known, one, ends) = respond-raises m.id m p raised in
      let live = (Reached-IsPeer p r).pending_live id known in
      (id, (answered, of, one), known, is_live-cancelled (lookup id p.futures) live ends)),
  (λ h.
      let (id, (answered, of, one), known, gone) = h in
      let raised = (answer-raises m.result m.has_error id p).1 (one, rw gone refl) in
      ap (λ z. z.1)
        (dispatch-respond send m.method m p answered ∙ respond-answer m.id id m p of known)
      ∙ raised),
)
