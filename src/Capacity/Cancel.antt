-- ===== src/Capacity/Cancel.antt =====
-- Cancelling an `acquire` that waits: the waiter leaves the line, or its granted lease is closed.
use mew_code.Prelude.{
  ◌≡◌, ◌≢◌, true, false, ◌&&◌, Option, none, some, List, [], ◌∷◌, map, contains, distinct, Eq, ◌==◌,
  nat_eq, Bool-cases, Option-cases, ◌⊎◌, inl, inr, arith,
}
use mew_code.Prelude.Dict.{lookup}
use mew_code.Prelude.Dict.Laws.{All}
use mew_code.Capacity.{owner_eq, Future, Waiter, Pool, close_lease, remove_waiter, cancel}
use mew_code.Capacity.Invariant.{IsPool, close_lease-IsPool}

remove_waiter-cons :
    (w x : Waiter) (xs rest : List Waiter)
    → remove_waiter w (x ∷ xs) ≡ some rest
    → (rest ≡ xs) ⊎ ((ys : List Waiter) × (remove_waiter w xs ≡ some ys) × (rest ≡ x ∷ ys))
unfolding remove_waiter
remove_waiter-cons w x xs rest h = elim (Option-cases (remove_waiter w xs)) [
  | inl missing ↦ inl (ground arith)
  | inr (ys, found) ↦ elim (Bool-cases (x.owner == w.owner && x.future == w.future)) [
    | inl same ↦ inl (ground arith)
    | inr other ↦ inr (ys, found, ground arith)
  ]
]

remove_waiter-All :
    (P : Waiter → Type 0) (w : Waiter) (ws rest : List Waiter)
    → remove_waiter w ws ≡ some rest
    → All P ws
    → All P rest
unfolding remove_waiter
remove_waiter-All P w [] rest e h = cc
remove_waiter-All P w (x ∷ xs) rest e h = elim (remove_waiter-cons w x xs rest e) [
  | inl gone ↦ rw gone h.1
  | inr (ys, found, kept) ↦ rw kept (h.0, remove_waiter-All P w xs ys found h.1)
]

module _ {B : Type 0} ⦃q : Eq B⦄ (f : Waiter → B) (w : Waiter) where
  remove_waiter-absent :
      (ws rest : List Waiter) (b : B)
      → remove_waiter w ws ≡ some rest
      → contains (map f ws) b ≡ false
      → contains (map f rest) b ≡ false
  unfolding contains remove_waiter
  remove_waiter-absent [] rest b e h = cc
  remove_waiter-absent (x ∷ xs) rest b e h = elim (remove_waiter-cons w x xs rest e) [
    | inl gone ↦ rw gone (ground arith)
    | inr (ys, found, kept) ↦ rw kept (ground (arith, remove_waiter-absent xs ys b found))
  ]

  remove_waiter-distinct :
      (ws rest : List Waiter)
      → remove_waiter w ws ≡ some rest
      → distinct (map f ws) ≡ true
      → distinct (map f rest) ≡ true
  unfolding distinct remove_waiter
  remove_waiter-distinct [] rest e h = cc
  remove_waiter-distinct (x ∷ xs) rest e h = elim (remove_waiter-cons w x xs rest e) [
    | inl gone ↦ rw gone (ground arith)
    | inr (ys, found, kept) ↦
        rw kept (
          ground
            (arith, remove_waiter-distinct xs ys found, remove_waiter-absent xs ys (f x) found))
  ]

someone_waits : (w : Waiter) (ws rest : List Waiter) → remove_waiter w ws ≡ some rest → ws ≢ []
unfolding remove_waiter
someone_waits w [] rest e = cc
someone_waits w (x ∷ xs) rest e = λ p. cc

-- A cancelled waiter gives up its place or its lease, and the pool keeps its invariant.
pub cancel-IsPool : (p : Pool) (w : Waiter) → IsPool p → IsPool (cancel w p)
unfolding cancel
cancel-IsPool p w h = elim (Option-cases (remove_waiter w p.waiters)) [
  | inl granted ↦ rw (granted, cancel) (settled (lookup w.future p.futures))
  | inr (rest, found) ↦
      rw (found, cancel)
        (record {
          sound = record {
            within = h.sound.within;
            unique = h.sound.unique;
            apart = remove_waiter-All _ w p.waiters rest found h.sound.apart;
            owners = remove_waiter-distinct (λ x. x.owner) w p.waiters rest found h.sound.owners;
            futures = remove_waiter-distinct (λ x. x.future) w p.waiters rest found h.sound.futures;
            pending = remove_waiter-All _ w p.waiters rest found h.sound.pending;
            fresh = remove_waiter-All _ w p.waiters rest found h.sound.fresh;
          };
          busy = λ n. h.busy (someone_waits w p.waiters rest found);
          done = λ e. absurd (someone_waits w p.waiters rest found (h.done e));
        })
]
  where
    settled :
        (o : Option Future)
        → IsPool (elim o [
          | some f ↦ elim f [ Future.result lease ↦ close_lease lease p | _ ↦ p ]
          | none ↦ p
        ])
    settled none = h
    settled (some Future.pending) = h
    settled (some (Future.result lease)) = close_lease-IsPool p lease h
    settled (some Future.failed) = h
