-- ===== src/Capacity/Invariant.antt =====
-- The invariant of the pool, and that each of its methods keeps it.
use mew_code.Prelude.{
  ℕ, ◌+◌, ◌≤◌, ◌<◌, ◌≡◌, ◌≢◌, refl, Bool, true, false, not, ◌&&◌, ◌||◌, Option, some, List, [], ◌∷◌,
  ◌++◌, length, map, any, contains, distinct, ltb, leb, ◌==◌, nat_eq, option_eq, Bool-cases,
  Outcome-cases, ok, if_ind, arith, inl, inr,
}
use mew_code.Prelude.Dict.{lookup, insert, erase, has, keys, lookup-insert}
use mew_code.Prelude.Dict.Laws.{
  All, All-map, All-map₂, All-ne, All-snoc, distinct-keys-insert, distinct-keys-erase, lookup-erase,
  length-insert_new, length-erase, distinct-map-snoc, distinct-cons,
}
use mew_code.Prelude.Text.{Text}
use mew_code.Capacity.{
  Owner, owner_eq, Lease, Future, Waiter, Pool, is_pending, grant, grant_waiters, release, is_nil,
  close_lease, close, Acquired, acquire, admit, validate_owner, try_acquire,
}

-- What holds of a pool whose waiters are `ws`: at most `limit` leases, each owner once among the
-- active and the waiting, and a pending future of its own for each waiter.
pub record IsSound (p : Pool) (ws : List Waiter) : Type 0 where
  pub within : length p.active ≤ p.limit
  pub unique : distinct (keys p.active) ≡ true
  pub apart : All (λ w. has w.owner p.active ≡ false) ws
  pub owners : distinct (map (λ w. w.owner) ws) ≡ true
  pub futures : distinct (map (λ w. w.future) ws) ≡ true
  pub pending : All (λ w. is_pending (lookup w.future p.futures) ≡ true) ws
  pub fresh : All (λ w. w.future < p.issued) ws

-- Nobody waits for a lease that could be had, and nobody waits on a closed pool.
pub record IsPool (p : Pool) : Type 0 where
  pub sound : IsSound p p.waiters
  pub busy : p.waiters ≢ [] → length p.active ≡ p.limit
  pub done : p.closed ≡ true → p.waiters ≡ []

-- The pool after its first waiter was granted a lease.
abbrev granted : Waiter → Pool → Pool
granted w p = record (grant w.owner p).0 {
  futures = insert w.future (Future.result (grant w.owner p).1) p.futures;
}

granted-IsSound :
    (p : Pool) (w : Waiter) (ws : List Waiter)
    → IsSound p (w ∷ ws)
    → length p.active < p.limit
    → IsSound (granted w p) ws
unfolding grant
granted-IsSound p w ws h room =
    let new = h.apart.0 in
    let (fresh_owner, rest_owners) = distinct-cons (λ (w : Waiter). w.owner) w ws h.owners in
    let (fresh_future, rest_futures) = distinct-cons (λ (w : Waiter). w.future) w ws h.futures in
    record {
      within = omega (arith, length-insert_new w.owner p.issued p.active new);
      unique = distinct-keys-insert w.owner p.issued p.active h.unique;
      apart =
          All-map₂ ws
            (λ x a b. ground (
              arith,
              lookup-insert w.owner x.owner p.issued p.active,
              owner_eq.beq_iff w.owner x.owner,
              owner_eq.beq_iff x.owner w.owner,
            ))
            (All-ne (λ x. x.owner) ws w.owner fresh_owner) h.apart.1;
      owners = rest_owners;
      futures = rest_futures;
      pending =
          All-map₂ ws
            (λ x a b. ground (
              arith,
              lookup-insert w.future x.future (Future.result (grant w.owner p).1) p.futures,
            ))
            (All-ne (λ x. x.future) ws w.future fresh_future) h.pending.1;
      fresh = All-map ws (λ x a. omega arith) h.fresh.1;
    }

-- The invariant reads neither the list of waiters of the pool nor its flags.
IsSound-with :
    (p : Pool) (ws vs : List Waiter) (c : Bool) (ls : List ℕ)
    → IsSound p ws
    → IsSound (record p { waiters = vs; closed = c; closed_leases = ls }) ws
IsSound-with p ws vs c ls h = record {
  within = h.within;
  unique = h.unique;
  apart = h.apart;
  owners = h.owners;
  futures = h.futures;
  pending = h.pending;
  fresh = h.fresh;
}

-- After the waiters were looked at, either none waits or no lease is free.
grant_waiters-IsPool :
    (ws : List Waiter) (p : Pool) → p.closed ≡ false → IsSound p ws → IsPool (grant_waiters ws p)
unfolding grant_waiters
grant_waiters-IsPool [] p running h = record {
  sound = IsSound-with p [] [] p.closed p.closed_leases h;
  busy = λ n. absurd (n refl);
  done = λ e. refl;
}
grant_waiters-IsPool (w ∷ ws) p running h = elim (Bool-cases (ltb (length p.active) p.limit)) [
  | inl room ↦
      let next = granted-IsSound p w ws h (ground arith) in
      rw (room, h.pending.0) (grant_waiters-IsPool ws (granted w p) (unfold grant in running) next)
  | inr full ↦ rw full (record {
    sound = IsSound-with p (w ∷ ws) (w ∷ ws) p.closed p.closed_leases h;
    busy = λ _. let bound = h.within in ground arith;
    done = λ e. cc;
  })
]

-- One lease fewer.
erase-IsSound :
    (p : Pool) (ws : List Waiter) (owner : Owner)
    → IsSound p ws
    → has owner p.active ≡ true
    → IsSound (record p { active = erase owner p.active }) ws
erase-IsSound p ws owner h there = record {
  within = let bound = h.within in omega (arith, length-erase owner p.active there);
  unique = distinct-keys-erase owner p.active h.unique;
  apart = All-map ws (λ w a. ground (arith, lookup-erase owner w.owner p.active h.unique)) h.apart;
  owners = h.owners;
  futures = h.futures;
  pending = h.pending;
  fresh = h.fresh;
}

-- Releasing a lease, by its owner or by anyone with another token, keeps the invariant.
pub release-IsPool :
    (p : Pool) (owner : Owner) (token : ℕ) → IsPool p → IsPool (release owner token p)
unfolding release
release-IsPool p owner token h =
    if_ind IsPool (lookup owner p.active == some token)
      (λ mine.
        let held : has owner p.active ≡ true =
          ground (arith, (option_eq {A = ℕ}).beq_iff (lookup owner p.active) (some token)) in
        let freed = erase-IsSound p p.waiters owner h.sound held in
        if_ind IsPool p.closed
          (λ over. record {
            sound = IsSound-with _ p.waiters p.waiters p.closed p.closed_leases freed;
            busy = λ n. absurd (n (h.done over));
            done = λ e. h.done over;
          })
          (λ running. grant_waiters-IsPool p.waiters _ running freed))
      (λ other. h)

-- A lease that is granted at once.
grant-IsPool :
    (p : Pool) (owner : Owner)
    → IsPool p
    → p.waiters ≡ []
    → length p.active < p.limit
    → has owner p.active ≡ false
    → IsPool (grant owner p).0
unfolding grant
grant-IsPool p owner h idle room new = record {
  sound = rw idle (record {
    within = omega (arith, length-insert_new owner p.issued p.active new);
    unique = distinct-keys-insert owner p.issued p.active h.sound.unique;
    apart = tt;
    owners = unfold distinct in refl;
    futures = unfold distinct in refl;
    pending = tt;
    fresh = tt;
  });
  busy = λ n. absurd (n idle);
  done = h.done;
}

-- The pool with one more waiter at its end.
abbrev pub queued : Owner → Pool → Pool
queued owner p = record p {
  waiters = p.waiters ++ record { owner = owner; future = p.issued } ∷ [];
  futures = insert p.issued Future.pending p.futures;
  issued = p.issued + 1;
}

fresh_future :
    (ws : List Waiter) (n : ℕ)
    → All (λ w. w.future < n) ws
    → contains (map (λ w. w.future) ws) n ≡ false
unfolding contains
fresh_future [] n h = refl
fresh_future (w ∷ ws) n h = let first = h.0 in ground (arith, fresh_future ws n h.1)

fresh_owner :
    (ws : List Waiter) (owner : Owner)
    → any (λ w. w.owner == owner) ws ≡ false
    → contains (map (λ w. w.owner) ws) owner ≡ false
unfolding contains any
fresh_owner [] owner h = refl
fresh_owner (w ∷ ws) owner h = ground (arith, fresh_owner ws owner)

queued-IsSound :
    (p : Pool) (owner : Owner)
    → IsSound p p.waiters
    → has owner p.active ≡ false
    → any (λ w. w.owner == owner) p.waiters ≡ false
    → IsSound (queued owner p) (queued owner p).waiters
queued-IsSound p owner h new other =
    let waiter : Waiter = record { owner = owner; future = p.issued } in
    record {
      within = h.within;
      unique = h.unique;
      apart = All-snoc (λ w. has w.owner p.active ≡ false) p.waiters waiter h.apart new;
      owners =
          distinct-map-snoc (λ w. w.owner) p.waiters waiter h.owners
            (fresh_owner p.waiters owner other);
      futures =
          distinct-map-snoc (λ w. w.future) p.waiters waiter h.futures
            (fresh_future p.waiters p.issued h.fresh);
      pending =
          All-snoc
            (λ w. is_pending (lookup w.future (insert p.issued Future.pending p.futures)) ≡ true)
            p.waiters waiter
            (All-map₂ p.waiters
              (λ w a b. ground (arith, lookup-insert p.issued w.future Future.pending p.futures))
              h.fresh h.pending)
            (ground (arith, lookup-insert p.issued p.issued Future.pending p.futures));
      fresh =
          All-snoc (λ w. w.future < p.issued + 1) p.waiters waiter
            (All-map p.waiters (λ w a. omega arith) h.fresh) (omega arith);
    }

queued-IsPool :
    (p : Pool) (owner : Owner)
    → IsPool p
    → p.closed ≡ false
    → length p.active ≡ p.limit
    → has owner p.active ≡ false
    → any (λ w. w.owner == owner) p.waiters ≡ false
    → IsPool (queued owner p)
queued-IsPool p owner h running full new other = record {
  sound = queued-IsSound p owner h.sound new other;
  busy = λ _. full;
  done = λ e. cc;
}

IsPool-closed_leases :
    (p : Pool) (ls : List ℕ) → IsPool p → IsPool (record p { closed_leases = ls })
IsPool-closed_leases p ls h = record {
  sound = IsSound-with p p.waiters p.waiters p.closed ls h.sound;
  busy = h.busy;
  done = h.done;
}

-- Closing a lease, once or again.
pub close_lease-IsPool : (p : Pool) (lease : Lease) → IsPool p → IsPool (close_lease lease p)
unfolding close_lease
close_lease-IsPool p lease h =
    if_ind IsPool (contains p.closed_leases lease.token) (λ again. h)
      (λ first.
        release-IsPool _ lease.owner lease.token
          (IsPool-closed_leases p (lease.token ∷ p.closed_leases) h))

-- Closing the pool.
pub close-IsPool : (p : Pool) → IsPool p → IsPool (close p)
unfolding close
close-IsPool p h =
    if_ind IsPool p.closed (λ over. h)
      (λ running. record {
        sound = record {
          within = h.sound.within;
          unique = h.sound.unique;
          apart = tt;
          owners = unfold distinct in refl;
          futures = unfold distinct in refl;
          pending = tt;
          fresh = tt;
        };
        busy = λ n. absurd (n refl);
        done = λ e. refl;
      })

-- What the test of `try_acquire` and `acquire` reads when it does not grant.
full_or_waiting :
    (p : Pool)
    → IsPool p
    → (ltb (length p.active) p.limit && is_nil p.waiters) ≡ false
    → length p.active ≡ p.limit
full_or_waiting p h q = full p.waiters refl
  where
    full : (ws : List Waiter) → p.waiters ≡ ws → length p.active ≡ p.limit
    full [] e = let bound = h.sound.within in ground arith
    full (w ∷ ws) e = h.busy (λ none_waits. cc)

-- Acquiring, whether it grants or waits.
pub acquire-IsPool :
    (p p' : Pool) (owner_kind owner_id : Text) (a : Acquired)
    → IsPool p
    → acquire owner_kind owner_id p ≡ ok (p', a)
    → IsPool p'
unfolding acquire admit
acquire-IsPool p p' owner_kind owner_id a h e =
    elim (Outcome-cases (validate_owner owner_kind owner_id)) [
      | inr (x, bad) ↦ absurd (ground arith)
      | inl (owner, named) ↦ elim (Bool-cases (ltb (length p.active) p.limit && is_nil p.waiters)) [
        | inl room ↦
            let out : (grant owner p).0 ≡ p' = ground arith in
            rw (← out) (
              grant-IsPool p owner h (idle p.waiters refl (ground arith)) (ground arith)
                (ground arith))
        | inr wait ↦
            let out : queued owner p ≡ p' = ground arith in
            rw (← out) (
              queued-IsPool p owner h (ground arith) (full_or_waiting p h wait) (ground arith)
                (ground arith))
      ]
    ]
  where
    idle : (ws : List Waiter) → p.waiters ≡ ws → is_nil p.waiters ≡ true → p.waiters ≡ []
    idle [] q t = q
    idle (w ∷ ws) q t = cc

pub try_acquire-IsPool :
    (p p' : Pool) (owner_kind owner_id : Text) (o : Option Lease)
    → IsPool p
    → try_acquire owner_kind owner_id p ≡ ok (p', o)
    → IsPool p'
unfolding try_acquire admit
try_acquire-IsPool p p' owner_kind owner_id o h e =
    elim (Outcome-cases (validate_owner owner_kind owner_id)) [
      | inr (x, bad) ↦ absurd (ground arith)
      | inl (owner, named) ↦
          elim (Bool-cases (leb p.limit (length p.active) || not (is_nil p.waiters))) [
            | inl wait ↦ let out : p ≡ p' = ground arith in rw (← out) h
            | inr room ↦
                let out : (grant owner p).0 ≡ p' = ground arith in
                rw (← out) (
                  grant-IsPool p owner h (idle p.waiters refl (ground arith)) (ground arith)
                    (ground arith))
          ]
    ]
  where
    idle : (ws : List Waiter) → p.waiters ≡ ws → is_nil p.waiters ≡ true → p.waiters ≡ []
    idle [] q t = q
    idle (w ∷ ws) q t = cc
