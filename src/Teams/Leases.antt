-- ===== src/Teams/Leases.antt =====
-- src/mewcode/teams/leases.py: the lease of a team's lead, a file that one process holds at a time.
-- The lock is free or busy and the clock's readings are given. `known` is the team ids that the
-- repository lists, and `changed` is whether the bytes of the file changed while `acquire` slept.
pub mod Fences
use mew_code.Prelude.{
  ℕ, ◌+◌, Bool, true, false, not, ◌&&◌, ◌||◌, Option, none, some, List, contains, leb, ◌==◌, nat_eq,
  pair_eq, Outcome, ok, err, ◌>>=◌, ◌>>◌, raise_if, if◌then◌else◌,
}
use mew_code.Prelude.Text.{Text, text_eq}
use mew_code.Teams.Models.{Time, TeamName, Failure, require_identifier}
use mew_code.Teams.Repository.{TeamLeadLeaseRecord, Disk, load}

-- TeamLeadLease of models.py
pub record TeamLeadLease : Type 0 where
  pub record_of : TeamLeadLeaseRecord
  pub released : Bool

abbrev pub fence : TeamLeadLease → Text × ℕ
fence lease = (lease.record_of.lease_id, lease.record_of.generation)

abbrev pub fence_of : TeamLeadLeaseRecord → Text × ℕ
fence_of r = (r.lease_id, r.generation)

-- TeamLeadLeaseRecord.__post_init__
unfoldable pub checked_record : TeamLeadLeaseRecord → Outcome Failure TeamLeadLeaseRecord
checked_record r = do
  raise_if (not (r.schema_version == 1)) Failure.validation
  require_identifier r.team_id
  require_identifier r.lease_id
  require_identifier r.holder_session_id
  require_identifier r.holder_process_id
  ok r

-- _expired: sixty seconds, in microseconds
unfoldable pub expired : TeamLeadLeaseRecord → Time → Bool
expired r now = leb (r.heartbeat_at + 60000000) now

abbrev pub held : Option TeamLeadLeaseRecord → Time → Bool
held none now = false
held (some r) now = not (expired r now)

abbrev pub next_generation : Option TeamLeadLeaseRecord → ℕ
next_generation none = 1
next_generation (some r) = r.generation + 1

unfoldable pub acquire :
    TeamName
    → Bool
    → Bool
    → Text
    → Text
    → Text
    → Time
    → Time
    → Disk
    → Outcome Failure (TeamLeadLease × Disk)
acquire team busy changed root_session_id process_id new_id checked_at now disk = do
  state ← load team disk
  raise_if busy Failure.lease
  raise_if (held disk.lease_file checked_at) Failure.lease
  raise_if changed Failure.lease
  r ← checked_record (record {
    schema_version = 1;
    team_id = state.manifest.team_id;
    lease_id = new_id;
    generation = next_generation disk.lease_file;
    holder_session_id = root_session_id;
    holder_process_id = process_id;
    heartbeat_at = now;
  })
  ok (record { record_of = r; released = false }, record disk { lease_file = some r })

-- _require_current
unfoldable pub require_current :
    Option TeamLeadLeaseRecord → TeamLeadLease → Outcome Failure TeamLeadLeaseRecord
require_current none lease = err Failure.lease
require_current (some current) lease = do
  raise_if (not (current.team_id == lease.record_of.team_id)) Failure.lease
  raise_if (not (fence_of current == fence lease)) Failure.lease
  ok current

-- _paths_for raises where no listed team has the id
unfoldable pub renew :
    List Text → Bool → Time → Time → TeamLeadLease → Disk → Outcome Failure (TeamLeadLease × Disk)
renew known busy checked_at now lease disk = do
  raise_if (not (contains known lease.record_of.team_id)) Failure.lease
  raise_if busy Failure.lease
  current ← require_current disk.lease_file lease
  raise_if (expired current checked_at) Failure.lease
  renewed ← checked_record (record current { heartbeat_at = now })
  ok (record { record_of = renewed; released = false }, record disk { lease_file = some renewed })

unfoldable pub validate_lease : List Text → Time → TeamLeadLease → Disk → Outcome Failure (Unit {0})
validate_lease known now lease disk = do
  raise_if lease.released Failure.lease
  raise_if (not (contains known lease.record_of.team_id)) Failure.lease
  current ← require_current disk.lease_file lease
  raise_if (expired current now) Failure.lease

-- The file after `release`: the epoch as heartbeat, or as it was for another's lease.
unfoldable pub released_file :
    Option TeamLeadLeaseRecord → TeamLeadLease → Outcome Failure (Option TeamLeadLeaseRecord)
released_file none lease = ok none
released_file (some current) lease = do
  let freed = checked_record (record current { heartbeat_at = 0 }) >>= λ r. ok (some r)
  if fence_of current == fence lease then freed else ok (some current)

unfoldable pub release_lease : List Text → Bool → TeamLeadLease → Disk → Outcome Failure Disk
release_lease known busy lease disk = do
  raise_if (not (contains known lease.record_of.team_id)) Failure.lease
  raise_if busy Failure.lease
  file ← released_file disk.lease_file lease
  ok (record disk { lease_file = file })
