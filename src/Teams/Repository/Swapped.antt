-- ===== src/Teams/Repository/Swapped.antt =====
-- What a compare-and-swap comes to.
use mew_code.Prelude.{
  ℕ, ◌+◌, ◌≡◌, refl, Option, none, some, pair_eq, nat_eq, Outcome, Outcome-cases, ok, err, inl, inr,
  arith, eq_of_==, ◌<◌,
}
use mew_code.Prelude.Text.{Text, text_eq}
use mew_code.Teams.Models.{Time, TeamState, TeamName, Failure}
use mew_code.Teams.Repository.{
  TeamLeadLeaseRecord, validate, Disk, load_state, load, validate_fence, compare_and_swap, Swap,
  Write, stored, atomic_write, committed_state,
}

-- The lease is that of the team, has the fence, and its heartbeat is less than 60 seconds old.
pub record IsHeld (lease : Option TeamLeadLeaseRecord) (team_id : Text) (fence : Text × ℕ)
    (now : Time) : Type 0 where
  pub holder : TeamLeadLeaseRecord
  pub present : lease ≡ some holder
  pub of_team : holder.team_id ≡ team_id
  pub lease_id : holder.lease_id ≡ fence.0
  pub generation : holder.generation ≡ fence.1
  pub alive : now < holder.heartbeat_at + 60000000

validate_fence-IsHeld :
    (lease : Option TeamLeadLeaseRecord) (team_id : Text) (fence : Text × ℕ) (now : Time)
    → validate_fence lease team_id fence now ≡ ok tt
    → IsHeld lease team_id fence now
unfolding validate_fence
validate_fence-IsHeld none team_id fence now h = cc
validate_fence-IsHeld (some r) team_id (id, generation) now h = record {
  holder = r;
  present = refl;
  of_team = eq_of_== r.team_id team_id (ground arith);
  lease_id = eq_of_== r.lease_id id (ground arith);
  generation = ground arith;
  alive = ground arith;
}

-- A swap that returns replaced a state of the expected revision, while the caller's fence was that of a
-- live lease, by the candidate one revision later, which passes the checks.
pub record IsSwapped (name : TeamName) (expected : ℕ) (fence : Text × ℕ) (swap : Swap)
    (candidate committed : TeamState) (before after : Option TeamState) : Type 0 where
  pub current : TeamState
  pub present : before ≡ some current
  pub revision : current.revision ≡ expected
  pub held : IsHeld swap.lease_read current.manifest.team_id fence swap.checked_at
  pub result : committed ≡ record candidate { revision = expected + 1; updated_at = swap.now }
  pub valid : validate committed ≡ ok tt
  pub replaced : after ≡ some (stored committed)

pub load_state-eq-ok :
    (name : TeamName) (file : Option TeamState) (s : TeamState)
    → load_state name file ≡ ok s
    → file ≡ some s
unfolding load_state
load_state-eq-ok name file s h = ground arith

pub load-eq-ok :
    (name : TeamName) (disk : Disk) (s : TeamState)
    → load name disk ≡ ok s
    → disk.state_file ≡ some s
unfolding load
load-eq-ok name disk s h = load_state-eq-ok name disk.state_file s h

module _ (name : TeamName) (swap : Swap) (expected : ℕ) (fence : Text × ℕ)
    (candidate : TeamState) where
  pub committed_state-IsSwapped :
      (committed : TeamState) (file : Option TeamState)
      → committed_state name swap expected fence candidate file ≡ ok committed
      → IsSwapped name expected fence swap candidate committed file (some (stored committed))
  unfolding committed_state
  committed_state-IsSwapped committed file h = elim (Outcome-cases (load_state name file)) [
    | inl (s, loaded) ↦ record {
      current = s;
      present = load_state-eq-ok name file s loaded;
      revision = ground arith;
      held =
          validate_fence-IsHeld swap.lease_read s.manifest.team_id fence swap.checked_at
            (ground arith);
      result = ground arith;
      valid = ground arith;
      replaced = refl;
    }
    | inr (e, bad) ↦ absurd (ground arith)
  ]

  -- What a swap comes to: it returns and has replaced the file; it raises and the file is as it was; or
  -- its write raised, perhaps after the file was replaced.
  pub data IsEnding (before : Option TeamState)
      : Outcome Failure TeamState → Option TeamState → Type 0 where
    returned :
        {after : Option TeamState} (committed : TeamState)
        → IsSwapped name expected fence swap candidate committed before after
        → IsEnding before (ok committed) after
    refused : (e : Failure) → IsEnding before (err e) before
    broke :
        {after : Option TeamState} (committed : TeamState)
        → IsSwapped name expected fence swap candidate committed before after
        → IsEnding before (err Failure.storage) after

  atomic_write-IsEnding :
      (w : Write) (committed : TeamState) (file : Option TeamState)
      → committed_state name swap expected fence candidate file ≡ ok committed
      → IsEnding file (atomic_write w committed file).0 (atomic_write w committed file).1
  unfolding atomic_write
  atomic_write-IsEnding Write.written committed file h =
      IsEnding.returned committed (committed_state-IsSwapped committed file h)
  atomic_write-IsEnding Write.failed committed file h = IsEnding.refused Failure.storage
  atomic_write-IsEnding Write.failed_after_replace committed file h =
      IsEnding.broke committed (committed_state-IsSwapped committed file h)

  pub compare_and_swap-IsEnding :
      (file : Option TeamState)
      → IsEnding file
          (compare_and_swap name swap expected fence candidate file).0
          (compare_and_swap name swap expected fence candidate file).1
  unfolding compare_and_swap
  compare_and_swap-IsEnding file =
      elim (Outcome-cases (committed_state name swap expected fence candidate file)) [
        | inl (committed, e) ↦
            rw (compare_and_swap, e) (atomic_write-IsEnding swap.write committed file e)
        | inr (e, bad) ↦ rw (compare_and_swap, bad) (IsEnding.refused e)
      ]
