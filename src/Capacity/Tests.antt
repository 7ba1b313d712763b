-- ===== src/Capacity/Tests.antt =====
-- The properties of the pool at a pool of one lease with one owner in line.
use mew_code.Prelude.{nat_eq, ◌≡◌, refl, false, some, [], ◌∷◌, any}
use mew_code.Prelude.Dict.{lookup, insert, erase}
use mew_code.Prelude.Text.{text_eq, codes, strip, lstrip, is_space}
use mew_code.Capacity.{
  Owner, owner_eq, Future, Waiter, Pool, Acquired, validate_owner, admit, grant, new_pool, acquire,
  release,
}
use mew_code.Capacity.Invariant.{IsPool}
use mew_code.Capacity.Runs.{Step, Reach, reached-IsPool, release_serves_first}

abbrev fresh : Pool
fresh = record {
  limit = 1;
  active = [];
  waiters = [];
  closed = false;
  futures = [];
  issued = 0;
  closed_leases = [];
}

abbrev a : Owner
a = (codes "k", codes "a")

abbrev b : Owner
b = (codes "k", codes "b")

abbrev taken : Pool
taken = record fresh { active = (a, 0) ∷ []; issued = 1 }

abbrev line : Waiter
line = record { owner = b; future = 1 }

abbrev queued : Pool
queued = record taken { waiters = line ∷ []; futures = (1, Future.pending) ∷ []; issued = 2 }

first-Step : Step fresh taken
unfolding acquire validate_owner strip lstrip is_space admit grant lookup insert any owner_eq
    text_eq
first-Step =
    Step.acquired (codes "k") (codes "a") (Acquired.leased (record { owner = a; token = 0 })) refl

second-Step : Step taken queued
unfolding acquire validate_owner strip lstrip is_space admit grant lookup insert any owner_eq
    text_eq
second-Step = Step.acquired (codes "k") (codes "b") (Acquired.waits line) refl

reached-IsPool_example : IsPool queued
unfolding new_pool
reached-IsPool_example =
    reached-IsPool 1 fresh queued refl (Reach.next (Reach.next Reach.here first-Step) second-Step)

queued-IsPool : IsPool queued
unfolding new_pool
queued-IsPool =
    reached-IsPool 1 fresh queued refl (Reach.next (Reach.next Reach.here first-Step) second-Step)

release_serves_first_example :
    ((release a 0 queued).waiters ≡ [])
    × (lookup 1 (release a 0 queued).futures
        ≡ some (Future.result (record { owner = b; token = 2 })))
    × ((release a 0 queued).active ≡ insert b 2 (erase a ((a, 0) ∷ [])))
unfolding lookup owner_eq text_eq
release_serves_first_example = release_serves_first queued a 0 line [] queued-IsPool refl refl refl
