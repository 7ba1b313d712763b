-- ===== src/Teams/Leases/Fences.antt =====
-- One lead at a time: a lease is taken only when the last one is over, and an older one never works
-- again.
use mew_code.Prelude.{
  ℕ, ◌+◌, ◌≤◌, ◌<◌, ◌≡◌, refl, sym, ◌∙◌, err, Bool, true, false, Option, none, some, List, contains,
  leb, ◌==◌, nat_eq, pair_eq, ok, raise_if, arith, Outcome-cases, Bool-cases, inl, inr, ==_self,
}
use mathlib.Core.Path.{subst}
use mew_code.Prelude.Text.{Text, text_eq}
use mew_code.Teams.Models.{Time, TeamName, TeamState, Failure}
use mew_code.Teams.Repository.{
  TeamLeadLeaseRecord, Disk, Swap, load, committed_state, compare_and_swap,
}
use mew_code.Teams.Repository.Swapped.{committed_state-IsSwapped}
use mew_code.Teams.Leases.{
  TeamLeadLease, fence, fence_of, checked_record, expired, held, next_generation, acquire,
  require_current, renew, validate_lease, released_file, release_lease,
}

-- The number of the lease that the file holds, 0 for none.
abbrev pub generation_of : Option TeamLeadLeaseRecord → ℕ
generation_of none = 0
generation_of (some r) = r.generation

checked_record-eq-ok : (r r' : TeamLeadLeaseRecord) → checked_record r ≡ ok r' → r ≡ r'
unfolding checked_record
checked_record-eq-ok r r' h = ground arith

acquire-eq-ok :
    (team : TeamName) (busy changed : Bool) (session process id : Text) (checked_at now : Time)
    (d d' : Disk) (lease : TeamLeadLease)
    → acquire team busy changed session process id checked_at now d ≡ ok (lease, d')
    → (held d.lease_file checked_at ≡ false)
      × (lease.record_of.generation ≡ next_generation d.lease_file)
      × (lease.record_of.heartbeat_at ≡ now)
      × (lease.released ≡ false)
      × (d' ≡ record d { lease_file = some lease.record_of })
unfolding acquire
acquire-eq-ok team busy changed session process id checked_at now d d' lease h =
    elim (Outcome-cases (load team d)) [
      | inr (x, bad) ↦ absurd (ground arith)
      | inl (state, loaded) ↦
          let r : TeamLeadLeaseRecord = record {
            schema_version = 1;
            team_id = state.manifest.team_id;
            lease_id = id;
            generation = next_generation d.lease_file;
            holder_session_id = session;
            holder_process_id = process;
            heartbeat_at = now;
          } in
          elim (Outcome-cases (checked_record r)) [
            | inr (x, bad) ↦ absurd (ground arith)
            | inl (r', checked) ↦
                let same = checked_record-eq-ok r r' checked in
                (ground arith, ground arith, ground arith, ground arith, ground arith)
          ]
    ]

-- What any process does to the directory of a team: a lead's lease, or a commit of the state.
pub data LeaseStep : Disk → Disk → Type 0 where
  acquired :
      {d d' : Disk} (team : TeamName) (busy changed : Bool) (session process id : Text)
      (checked_at now : Time) (lease : TeamLeadLease)
      → acquire team busy changed session process id checked_at now d ≡ ok (lease, d')
      → LeaseStep d d'
  renewed :
      {d d' : Disk} (known : List Text) (busy : Bool) (checked_at now : Time)
      (lease lease' : TeamLeadLease)
      → renew known busy checked_at now lease d ≡ ok (lease', d')
      → LeaseStep d d'
  released :
      {d d' : Disk} (known : List Text) (busy : Bool) (lease : TeamLeadLease)
      → release_lease known busy lease d ≡ ok d'
      → LeaseStep d d'
  committed :
      {d : Disk} (team : TeamName) (swap : Swap) (revision : ℕ) (lease_fence : Text × ℕ)
      (candidate : TeamState)
      → LeaseStep d (record d {
        state_file = (compare_and_swap team swap revision lease_fence candidate d.state_file).1;
      })

pub data LeaseReach (d : Disk) : Disk → Type 0 where
  here : LeaseReach d d
  next : {e f : Disk} → LeaseReach d e → LeaseStep e f → LeaseReach d f

require_current-eq-ok :
    (file : Option TeamLeadLeaseRecord) (lease : TeamLeadLease) (current : TeamLeadLeaseRecord)
    → require_current file lease ≡ ok current
    → file ≡ some current
unfolding require_current
require_current-eq-ok none lease current h = absurd cc
require_current-eq-ok (some r) lease current h = ground arith

renew-generation :
    (known : List Text) (busy : Bool) (checked_at now : Time) (lease lease' : TeamLeadLease)
    (d d' : Disk)
    → renew known busy checked_at now lease d ≡ ok (lease', d')
    → generation_of d.lease_file ≡ generation_of d'.lease_file
unfolding renew
renew-generation known busy checked_at now lease lease' d d' h =
    elim (Outcome-cases (require_current d.lease_file lease)) [
      | inr (x, bad) ↦ absurd (ground arith)
      | inl (current, e) ↦
          elim (Outcome-cases (checked_record (record current { heartbeat_at = now }))) [
            | inr (x, bad) ↦ absurd (ground arith)
            | inl (r', checked) ↦
                let same = checked_record-eq-ok _ r' checked in
                let file = require_current-eq-ok d.lease_file lease current e in
                let out : d'.lease_file ≡ some r' = ground arith in rw (file, out, ← same) refl
          ]
    ]

released_file-generation :
    (lease : TeamLeadLease) (file file' : Option TeamLeadLeaseRecord)
    → released_file file lease ≡ ok file'
    → generation_of file ≡ generation_of file'
unfolding released_file
released_file-generation lease none file' e =
    let out : none ≡ file' = ground arith in rw (← out) refl
released_file-generation lease (some r) file' e = elim (Bool-cases (fence_of r == fence lease)) [
  | inr other ↦ let out : some r ≡ file' = ground arith in rw (← out) refl
  | inl mine ↦ elim (Outcome-cases (checked_record (record r { heartbeat_at = 0 }))) [
    | inr (x, bad) ↦ absurd (ground arith)
    | inl (r', checked) ↦
        let same = checked_record-eq-ok _ r' checked in
        let out : some r' ≡ file' = ground arith in rw (← out, ← same) refl
  ]
]

release-generation :
    (known : List Text) (busy : Bool) (lease : TeamLeadLease) (d d' : Disk)
    → release_lease known busy lease d ≡ ok d'
    → generation_of d.lease_file ≡ generation_of d'.lease_file
unfolding release_lease
release-generation known busy lease d d' h =
    elim (Outcome-cases (released_file d.lease_file lease)) [
      | inr (x, bad) ↦ absurd (ground arith)
      | inl (file, e) ↦
          let out : d'.lease_file ≡ file = ground arith in
          rw out (released_file-generation lease d.lease_file file e)
    ]

next_generation-grows :
    (file : Option TeamLeadLeaseRecord) → generation_of file < next_generation file
next_generation-grows none = omega arith
next_generation-grows (some r) = omega arith

LeaseStep-generation :
    {d d' : Disk} → LeaseStep d d' → generation_of d.lease_file ≤ generation_of d'.lease_file
LeaseStep-generation
      (acquired {d} {d'} team busy changed session process id checked_at now lease h) =
    let (over, number, time, live, out) =
      acquire-eq-ok team busy changed session process id checked_at now d d' lease h in
    let grown = next_generation-grows d.lease_file in rw out (omega arith)
LeaseStep-generation (renewed {d} {d'} known busy checked_at now lease lease' h) =
    omega (arith, renew-generation known busy checked_at now lease lease' d d' h)
LeaseStep-generation (released {d} {d'} known busy lease h) =
    omega (arith, release-generation known busy lease d d' h)
LeaseStep-generation (committed team swap revision f candidate) = omega arith

LeaseReach-generation :
    {d d' : Disk} → LeaseReach d d' → generation_of d.lease_file ≤ generation_of d'.lease_file
LeaseReach-generation here = omega arith
LeaseReach-generation (next {e} r s) =
    omega (arith, LeaseReach-generation r, LeaseStep-generation s)

require_current-stale :
    (file : Option TeamLeadLeaseRecord) (lease : TeamLeadLease)
    → lease.record_of.generation < generation_of file
    → require_current file lease ≡ err Failure.lease
unfolding require_current
require_current-stale none lease h = refl
require_current-stale (some r) lease h =
    let other : (fence_of r == fence lease) ≡ false = ground arith in ground (arith, other)

released_file-stale :
    (file : Option TeamLeadLeaseRecord) (lease : TeamLeadLease)
    → lease.record_of.generation < generation_of file
    → released_file file lease ≡ ok file
unfolding released_file
released_file-stale none lease h = refl
released_file-stale (some r) lease h =
    let other : (fence_of r == fence lease) ≡ false = ground arith in rw other refl

compare_and_swap-stale :
    (file : Option TeamLeadLeaseRecord) (lease : TeamLeadLease) (team : TeamName) (swap : Swap)
    (revision : ℕ) (candidate : TeamState) (state_file : Option TeamState)
    → lease.record_of.generation < generation_of file
    → swap.lease_read ≡ file
    → (e : Failure) × (compare_and_swap team swap revision (fence lease) candidate state_file
        ≡ (err e, state_file))
unfolding compare_and_swap
compare_and_swap-stale file lease team swap revision candidate state_file old read =
    elim (Outcome-cases (committed_state team swap revision (fence lease) candidate state_file)) [
      | inr (e, stopped) ↦ (e, rw (compare_and_swap, stopped) refl)
      | inl (s, good) ↦
          let c =
            committed_state-IsSwapped team swap revision (fence lease) candidate s state_file
              good in
          let held = c.held in
          let same : file ≡ some held.holder = sym read ∙ held.present in
          let newer : lease.record_of.generation < held.holder.generation =
            subst (λ z. lease.record_of.generation < generation_of z) same old in
          absurd (omega (arith, newer, held.generation))
    ]

-- A lease that is older than the one in the file never works again, whatever the processes do to the
-- file and to the state after that: it does not validate and cannot be renewed; a commit with its fence
-- that reads the lease file then raises and leaves the state file as it is, whatever it is given and
-- whatever that file holds; and its release leaves both files as they are.
pub stale_lease_refused :
    (lease : TeamLeadLease) (d d' : Disk) (known : List Text) (checked_at now : Time)
    (team : TeamName) (swap : Swap) (revision : ℕ) (candidate : TeamState)
    (state_file : Option TeamState)
    → lease.record_of.generation < generation_of d.lease_file
    → LeaseReach d d'
    → swap.lease_read ≡ d'.lease_file
    → contains known lease.record_of.team_id ≡ true
    → (validate_lease known now lease d' ≡ err Failure.lease)
      × (renew known false checked_at now lease d' ≡ err Failure.lease)
      × ((e : Failure) × (compare_and_swap team swap revision (fence lease) candidate state_file
            ≡ (err e, state_file)))
      × (release_lease known false lease d' ≡ ok d')
unfolding validate_lease renew release_lease
stale_lease_refused lease d d' known checked_at now team swap revision candidate state_file old r
      read listed =
    let older : lease.record_of.generation < generation_of d'.lease_file =
      omega (arith, LeaseReach-generation r) in
    let stale = require_current-stale d'.lease_file lease older in
    (
      ground (arith, stale),
      ground (arith, stale),
      compare_and_swap-stale d'.lease_file lease team swap revision candidate state_file older read,
      rw (listed, released_file-stale d'.lease_file lease older) refl,
    )

-- A lease is acquired only where none is held: the last one, if any, had expired. The new lease has a
-- greater number than the last one, and it validates, for a listed team, in the sixty seconds after
-- its heartbeat and not later.
pub acquire_takes_over :
    (team : TeamName) (busy changed : Bool) (session process id : Text) (checked_at now : Time)
    (d d' : Disk) (lease : TeamLeadLease) (known : List Text) (at : Time)
    → acquire team busy changed session process id checked_at now d ≡ ok (lease, d')
    → contains known lease.record_of.team_id ≡ true
    → (held d.lease_file checked_at ≡ false)
      × (generation_of d.lease_file < lease.record_of.generation)
      × (validate_lease known at lease d' ≡ raise_if (leb (now + 60000000) at) Failure.lease)
unfolding validate_lease expired require_current
acquire_takes_over team busy changed session process id checked_at now d d' lease known at h
      listed =
    let (over, number, time, live, out) =
      acquire-eq-ok team busy changed session process id checked_at now d d' lease h in
    let grown = next_generation-grows d.lease_file in
    let same_team = ==_self lease.record_of.team_id in
    let same_fence = ==_self (fence lease) in
    (over, omega arith, rw (out, live, listed, same_team, same_fence, time) refl)
