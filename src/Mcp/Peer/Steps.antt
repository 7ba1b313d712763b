-- ===== src/Mcp/Peer/Steps.antt =====
-- The peers that are reached, and what holds of each: a future that waits belongs to a pending request.
use mew_code.Prelude.{
  ℕ, ◌<◌, ◌≡◌, refl, Bool, true, false, not, ◌&&◌, ◌||◌, Option, none, some, List, [], ◌∷◌, ◌++◌,
  contains, keep, ◌==◌, nat_eq, Bool-cases, ok, inl, inr, if◌then◌else◌, arith,
}
use mew_code.Prelude.Text.{text_eq}
use mew_code.Prelude.Dict.{Dict, lookup, insert, is_some, lookup-insert}
use mew_code.Mcp.Peer.{
  McpError, Future, JsonRpcMessage, JsonRpcPeer, Ending, new_peer, is_waiting, pop, fail_all, fail,
  start_request, interrupt, end_request, receive, close,
}

-- One step of the peer: a call, or a coroutine that goes on.
pub data Step : JsonRpcPeer → JsonRpcPeer → Type 0 where
  requested : {p p' : JsonRpcPeer} (id : ℕ) → start_request p ≡ ok (p', id) → Step p p'
  interrupted : {p : JsonRpcPeer} (id : ℕ) → Step p (interrupt id p)
  ended : {p : JsonRpcPeer} (id : ℕ) (ending : Ending) → Step p (end_request id ending p)
  received :
      {p : JsonRpcPeer} (send : Option McpError) (m : Option JsonRpcMessage)
      → Step p (receive send m p).0
  failed : {p : JsonRpcPeer} (e : McpError) → Step p (fail e p)
  closed : {p : JsonRpcPeer} → Step p (close p)

pub data Reached : JsonRpcPeer → Type 0 where
  start : Reached new_peer
  next : {p p' : JsonRpcPeer} → Reached p → Step p p' → Reached p'

abbrev pub is_live : Option Future → Bool
is_live (some Future.waiting) = true
is_live (some Future.cancelled) = true
is_live _ = false

pub record IsPeer (p : JsonRpcPeer) : Type 0 where
  -- A waiting future belongs to a pending request.
  pub waiting_pending :
      (id : ℕ) → lookup id p.futures ≡ some Future.waiting → contains p.pending id ≡ true
  -- A pending request's future waits, or was cancelled and its request has yet to go on.
  pub pending_live : (id : ℕ) → contains p.pending id ≡ true → is_live (lookup id p.futures) ≡ true
  -- A future that exists has an identifier already given out.
  pub given_out : (id : ℕ) (f : Future) → lookup id p.futures ≡ some f → id < p.next_id
  -- After a failure nothing is pending, and a closed peer has failed.
  pub failed_empty : is_some p.failure ≡ true → p.pending ≡ []
  pub closed_failed : p.closed ≡ true → is_some p.failure ≡ true

is_waiting_lem : (o : Option Future) → is_waiting o ≡ true → o ≡ some Future.waiting
is_waiting_lem none h = absurd (ground arith)
is_waiting_lem (some Future.waiting) h = refl
is_waiting_lem (some Future.cancelled) h = absurd (ground arith)
is_waiting_lem (some Future.dropped) h = absurd (ground arith)
is_waiting_lem (some (Future.result v)) h = absurd (ground arith)
is_waiting_lem (some (Future.exception e)) h = absurd (ground arith)

pub contains-pop :
    (id j : ℕ) (ids : List ℕ) → contains (pop id ids) j ≡ (contains ids j && not (j == id))
unfolding contains pop keep
contains-pop id j [] = refl
contains-pop id j (k ∷ ids) =
    ground
      (arith, contains-pop id j ids, nat_eq.beq_iff k id, nat_eq.beq_iff k j, nat_eq.beq_iff j id)

pub contains-snoc :
    (ids : List ℕ) (id j : ℕ) → contains (ids ++ id ∷ []) j ≡ (contains ids j || id == j)
unfolding contains
contains-snoc [] id j = ground arith
contains-snoc (k ∷ ids) id j = ground (arith, contains-snoc ids id j)

-- The future of an identifier after `fail`: it waits no more if it was pending.
pub lookup-fail_all :
    (e : McpError) (ids : List ℕ) (futures : Dict ℕ Future) (j : ℕ)
    → lookup j (fail_all e ids futures) ≡ (
        if contains ids j && is_waiting (lookup j futures)
        then some (Future.exception e)
        else lookup j futures)
unfolding fail_all contains
lookup-fail_all e [] futures j = refl
lookup-fail_all e (id ∷ ids) futures j = elim (Bool-cases (is_waiting (lookup id futures))) [
  | inl waits ↦
      let rest = lookup-fail_all e ids (insert id (Future.exception e) futures) j in
      ground (arith, rest, lookup-insert id j (Future.exception e) futures, nat_eq.beq_iff id j)
  | inr ends ↦
      let rest = lookup-fail_all e ids futures j in ground (arith, rest, nat_eq.beq_iff id j)
]

abbrev pub put : ℕ → Future → Dict ℕ Future → Dict ℕ Future
put id v d = if is_waiting (lookup id d) then insert id v d else d

pub lookup-put :
    (id j : ℕ) (v : Future) (d : Dict ℕ Future)
    → lookup j (put id v d) ≡ (if id == j && is_waiting (lookup j d) then some v else lookup j d)
lookup-put id j v d = ground (arith, lookup-insert id j v d, nat_eq.beq_iff id j)
