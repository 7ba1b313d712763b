-- ===== src/Capacity/Runs.antt =====
-- Every pool that the methods can reach, in any order, and who is served next.
use mathlib.Core.Path.{subst}
use mew_code.Prelude.{
  ℕ, ◌+◌, ◌≡◌, refl, ap, ◌∙◌, true, false, Option, some, List, [], ◌∷◌, length, distinct, ◌==◌,
  nat_eq, option_eq, ltb, ok, Bool-cases, inl, inr, arith, ==_self,
}
use mew_code.Prelude.Dict.{lookup, insert, erase, has, lookup-insert}
use mew_code.Prelude.Dict.Laws.{All, length-erase, length-insert_new, lookup-erase}
use mew_code.Prelude.Text.{Text}
use mew_code.Capacity.{
  Owner, owner_eq, Lease, Future, Waiter, Pool, Acquired, is_pending, new_pool, try_acquire,
  acquire, release, close_lease, cancel, close, grant, grant_waiters,
}
use mew_code.Capacity.Invariant.{
  IsPool, close_lease-IsPool, close-IsPool, acquire-IsPool, try_acquire-IsPool,
}
use mew_code.Capacity.Cancel.{cancel-IsPool}

-- A call of a method by some agent; the lock lets one run at a time.
pub data Step : Pool → Pool → Type 0 where
  tried :
      {p p' : Pool} (kind id : Text) (o : Option Lease)
      → try_acquire kind id p ≡ ok (p', o)
      → Step p p'
  acquired :
      {p p' : Pool} (kind id : Text) (a : Acquired) → acquire kind id p ≡ ok (p', a) → Step p p'
  cancelled : {p : Pool} (w : Waiter) → Step p (cancel w p)
  returned : {p : Pool} (lease : Lease) → Step p (close_lease lease p)
  shut : {p : Pool} → Step p (close p)

pub data Reach (p : Pool) : Pool → Type 0 where
  here : Reach p p
  next : {q r : Pool} → Reach p q → Step q r → Reach p r

Step-IsPool : {p q : Pool} → Step p q → IsPool p → IsPool q
Step-IsPool (tried {p} {p'} kind id o e) h = try_acquire-IsPool p p' kind id o h e
Step-IsPool (acquired {p} {p'} kind id a e) h = acquire-IsPool p p' kind id a h e
Step-IsPool (cancelled {p} w) h = cancel-IsPool p w h
Step-IsPool (returned {p} lease) h = close_lease-IsPool p lease h
Step-IsPool (shut {p}) h = close-IsPool p h

Reach-IsPool : {p q : Pool} → IsPool p → Reach p q → IsPool q
Reach-IsPool h here = h
Reach-IsPool h (next r s) = Step-IsPool s (Reach-IsPool h r)

new_pool-IsPool : (limit : ℕ) (p : Pool) → new_pool limit ≡ ok p → IsPool p
unfolding new_pool distinct
new_pool-IsPool limit p h = elim (Bool-cases (ltb limit 1)) [
  | inl low ↦ absurd (ground arith)
  | inr high ↦
      let out : record {
        limit = limit;
        active = [];
        waiters = [];
        closed = false;
        futures = [];
        issued = 0;
        closed_leases = [];
      }
          ≡ p =
        ground arith in
      rw (← out) (record {
        sound = record {
          within = omega arith;
          unique = refl;
          apart = tt;
          owners = refl;
          futures = refl;
          pending = tt;
          fresh = tt;
        };
        busy = λ n. absurd (n refl);
        done = λ e. refl;
      })
]

-- From a new pool, by any calls in any order, the pool never has more leases than its limit, no
-- owner has two places, nobody waits while a lease is free, and nobody waits once it is closed.
pub reached-IsPool :
    (limit : ℕ) (start p : Pool) → new_pool limit ≡ ok start → Reach start p → IsPool p
reached-IsPool limit start p new r = Reach-IsPool (new_pool-IsPool limit start new) r

-- With every lease out, the waiters stay as they are.
grant_waiters_full :
    (ws : List Waiter) (p : Pool)
    → ltb (length p.active) p.limit ≡ false
    → grant_waiters ws p ≡ record p { waiters = ws }
unfolding grant_waiters
grant_waiters_full [] p full = refl
grant_waiters_full (w ∷ ws) p full = rw full refl

-- The pool after its first waiter was handed a lease.
abbrev served : Waiter → List Waiter → Pool → Pool
served w ws p = record p {
  active = insert w.owner p.issued p.active;
  issued = p.issued + 1;
  futures =
      insert w.future (Future.result (record { owner = w.owner; token = p.issued })) p.futures;
  waiters = ws;
}

grant_waiters_first :
    (w : Waiter) (ws : List Waiter) (p : Pool)
    → is_pending (lookup w.future p.futures) ≡ true
    → has w.owner p.active ≡ false
    → length p.active + 1 ≡ p.limit
    → grant_waiters (w ∷ ws) p ≡ served w ws p
unfolding grant_waiters grant
grant_waiters_first w ws p waits new last =
    let room : ltb (length p.active) p.limit ≡ true = ground arith in
    let grown = length-insert_new w.owner p.issued p.active new in
    let full : ltb (length (insert w.owner p.issued p.active)) p.limit ≡ false = ground arith in
    rw (room, waits) (grant_waiters_full ws (record (served w ws p) { waiters = p.waiters }) full)

-- In a pool of the invariant that is not closed, a returned lease goes to the first in line: with a
-- lease of an owner out and `w` the first waiter, the release hands a new lease to `w` alone, and the others keep their order.
pub release_serves_first :
    (p : Pool) (owner : Owner) (token : ℕ) (w : Waiter) (ws : List Waiter)
    → IsPool p
    → p.closed ≡ false
    → lookup owner p.active ≡ some token
    → p.waiters ≡ w ∷ ws
    → let q = release owner token p in
      (q.waiters ≡ ws)
      × (lookup w.future q.futures
          ≡ some (Future.result (record { owner = w.owner; token = p.issued })))
      × (q.active ≡ insert w.owner p.issued (erase owner p.active))
unfolding release
release_serves_first p owner token w ws h running held line =
    let same : (lookup owner p.active == some token) ≡ true = rw held (==_self (some token)) in
    let there : has owner p.active ≡ true = ground arith in
    let size = length-erase owner p.active there in
    let full = h.busy (λ e. cc) in
    let freed : Pool = record p { active = erase owner p.active } in
    let apart = subst (All (λ w. has w.owner p.active ≡ false)) line h.sound.apart in
    let pending =
      subst (All (λ w. is_pending (lookup w.future p.futures) ≡ true)) line h.sound.pending in
    let new : has w.owner (erase owner p.active) ≡ false =
      ground (arith, lookup-erase owner w.owner p.active h.sound.unique, apart.0) in
    let woken : release owner token p ≡ grant_waiters p.waiters freed = rw (same, running) refl in
    let first : grant_waiters (w ∷ ws) freed ≡ served w ws freed =
      grant_waiters_first w ws freed pending.0 new (omega arith) in
    let handed : release owner token p ≡ served w ws freed =
      woken ∙ ap (λ v. grant_waiters v freed) line ∙ first in
    (
      ap (λ q. q.waiters) handed,
      ap (λ q. lookup w.future q.futures) handed
          ∙ (ground (
            arith,
            lookup-insert w.future w.future
                (Future.result (record { owner = w.owner; token = p.issued })) p.futures,
          )),
      ap (λ q. q.active) handed,
    )
