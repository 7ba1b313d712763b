-- ===== src/Capacity.antt =====
-- src/mewcode/agent/capacity.py: the first-in first-out pool of agent capacity.
-- The pool's lock makes each method one step. An identifier of `uuid4` is the next number, and so is
-- the identity of a future: the code relies on their being distinct. A future is shielded, so only
-- the pool settles it.
mod Owners
pub mod Invariant
pub mod Cancel
pub mod Runs
mod Tests
unfoldable pub use Owners.{owner_eq, validate_owner}
pub use Owners.{Owner, CapacityError}
use mew_code.Prelude.{
  ℕ, suc, ◌+◌, Bool, true, false, not, ◌&&◌, ◌||◌, Option, none, some, List, [], ◌∷◌, ◌++◌, length,
  map, any, contains, ltb, leb, ◌==◌, nat_eq, option_eq, Outcome, ok, err, ◌>>=◌, ◌>>◌, raise_if,
  if◌then◌else◌,
}
use mew_code.Prelude.Dict.{Dict, lookup, insert, erase, has}
use mew_code.Prelude.Text.{Text}

-- AgentCapacityLease without its flag, which `Pool.closed_leases` holds by token
pub record Lease : Type 0 where
  pub owner : Owner
  pub token : ℕ

pub data Future : Type 0 where
  pending : Future
  result : Lease → Future
  failed : Future

pub record Waiter : Type 0 where
  pub owner : Owner
  pub future : ℕ

pub record Pool : Type 0 where
  pub limit : ℕ
  pub active : Dict Owner ℕ
  pub waiters : List Waiter
  pub closed : Bool
  pub futures : Dict ℕ Future
  pub issued : ℕ
  pub closed_leases : List ℕ

-- AgentCapacityPool(limit)
unfoldable pub new_pool : ℕ → Outcome CapacityError Pool
new_pool limit = do
  raise_if (ltb limit 1) CapacityError.invalid
  ok (record {
    limit = limit;
    active = [];
    waiters = [];
    closed = false;
    futures = [];
    issued = 0;
    closed_leases = [];
  })

-- _grant
unfoldable pub grant : Owner → Pool → Pool × Lease
grant owner pool = (
  record pool { active = insert owner pool.issued pool.active; issued = pool.issued + 1 },
  record { owner = owner; token = pool.issued },
)

abbrev pub is_pending : Option Future → Bool
is_pending (some Future.pending) = true
is_pending _ = false

-- _ensure_open and _ensure_unique
unfoldable pub admit : Owner → Pool → Outcome CapacityError (Unit {0})
admit owner pool = do
  raise_if pool.closed CapacityError.closed
  raise_if (has owner pool.active || any (λ item. item.owner == owner) pool.waiters)
      CapacityError.not_unique

abbrev pub is_nil : List Waiter → Bool
is_nil [] = true
is_nil (w ∷ ws) = false

unfoldable pub try_acquire : Text → Text → Pool → Outcome CapacityError (Pool × Option Lease)
try_acquire owner_kind owner_id pool = do
  owner ← validate_owner owner_kind owner_id
  admit owner pool
  let (granted, lease) = grant owner pool
  ok (
      if leb pool.limit (length pool.active) || not (is_nil pool.waiters)
      then (pool, none)
      else (granted, some lease))

-- What `acquire` has when it leaves the lock: a lease, or a waiter whose future it awaits.
pub data Acquired : Type 0 where
  leased : Lease → Acquired
  waits : Waiter → Acquired

unfoldable pub acquire : Text → Text → Pool → Outcome CapacityError (Pool × Acquired)
acquire owner_kind owner_id pool = do
  owner ← validate_owner owner_kind owner_id
  admit owner pool
  let (granted, lease) = grant owner pool
  let waiter : Waiter = record { owner = owner; future = pool.issued }
  let queued = record pool {
    waiters = pool.waiters ++ waiter ∷ [];
    futures = insert pool.issued Future.pending pool.futures;
    issued = pool.issued + 1;
  }
  ok (
      if ltb (length pool.active) pool.limit && is_nil pool.waiters
      then (granted, Acquired.leased lease)
      else (queued, Acquired.waits waiter))

-- _grant_waiters: a waiter whose future is settled is dropped, and the next one is looked at
unfoldable pub grant_waiters : List Waiter → Pool → Pool
grant_waiters [] pool = record pool { waiters = [] }
grant_waiters (w ∷ ws) pool =
    let (granted, lease) = grant w.owner pool in
    let pending = is_pending (lookup w.future pool.futures) in
    let next =
      if pending
      then record granted { futures = insert w.future (Future.result lease) pool.futures }
      else pool in
    let rest = grant_waiters ws next in
    if ltb (length pool.active) pool.limit then rest else record pool { waiters = w ∷ ws }

-- _release
unfoldable pub release : Owner → ℕ → Pool → Pool
release owner token pool =
    let freed = record pool { active = erase owner pool.active } in
    let woken = grant_waiters freed.waiters freed in
    if lookup owner pool.active == some token then (if pool.closed then freed else woken) else pool

-- AgentCapacityLease.close
unfoldable pub close_lease : Lease → Pool → Pool
close_lease lease pool =
    if contains pool.closed_leases lease.token
    then pool
    else release lease.owner lease.token
        (record pool { closed_leases = lease.token ∷ pool.closed_leases })

abbrev same_waiter : Waiter → Waiter → Bool
same_waiter a b = a.owner == b.owner && a.future == b.future

-- self._waiters.remove(waiter); `none` is its ValueError
unfoldable pub remove_waiter : Waiter → List Waiter → Option (List Waiter)
remove_waiter w [] = none
remove_waiter w (x ∷ xs) =
    let rest = remove_waiter w xs in
    let kept : Option (List Waiter) = elim rest [ none ↦ none | some ys ↦ some (x ∷ ys) ] in
    if same_waiter x w then some xs else kept

-- The handler of CancelledError in `acquire`: a lease that was granted already is closed.
unfoldable pub cancel : Waiter → Pool → Pool
cancel w pool = elim (remove_waiter w pool.waiters) [
  | some rest ↦ record pool { waiters = rest }
  | none ↦ elim (lookup w.future pool.futures) [
    | some f ↦ elim f [ Future.result lease ↦ close_lease lease pool | _ ↦ pool ]
    | none ↦ pool
  ]
]

-- The loop of `close`: the futures of the waiters that are not settled raise.
unfoldable pub fail_all : List Waiter → Dict ℕ Future → Dict ℕ Future
fail_all [] futures = futures
fail_all (w ∷ ws) futures = fail_all ws (
    if is_pending (lookup w.future futures) then insert w.future Future.failed futures else futures)

unfoldable pub close : Pool → Pool
close pool =
    if pool.closed
    then pool
    else record pool { closed = true; waiters = []; futures = fail_all pool.waiters pool.futures }

-- AgentCapacityReservation: a lease that is handed on once
pub record Reservation : Type 0 where
  pub lease : Option Lease
  pub consumed : Bool

unfoldable pub try_reserve : Text → Text → Pool → Outcome CapacityError (Pool × Option Reservation)
try_reserve owner_kind owner_id pool = do
  acquired ← try_acquire owner_kind owner_id pool
  ok (
    acquired.0,
    elim acquired.1 [
      | none ↦ none
      | some lease ↦ some (record { lease = some lease; consumed = false })
    ],
  )

unfoldable pub consume : Reservation → Outcome CapacityError (Reservation × Lease)
consume reservation = elim reservation.lease [
  | none ↦ err CapacityError.already_consumed
  | some lease ↦
      raise_if reservation.consumed CapacityError.already_consumed
      >> ok (record { lease = none; consumed = true }, lease)
]

unfoldable pub close_reservation : Reservation → Pool → Reservation × Pool
close_reservation reservation pool = (
  record reservation { lease = none },
  elim reservation.lease [ none ↦ pool | some lease ↦ close_lease lease pool ],
)
