-- ===== src/Teams/Creation.antt =====
-- src/mewcode/teams/repository.py and domain.py: the creation of a team, and the check of a whole
-- state. `teams` is the number of teams that the repository lists.
use mew_code.Prelude.{
  ℕ, ◌≡◌, refl, Bool, false, not, ◌||◌, Option, none, some, List, [], ◌∷◌, map, all, contains,
  distinct, leb, ◌==◌, Outcome, Outcome-cases, ok, err, ◌∙◌, ◌>>◌, raise_if, arith, inl, inr,
  ==_self,
}
use mew_code.Prelude.Dict.{Dict, is_some, lookup}
use mew_code.Prelude.Dict.Sorted.{lookup-sorted}
use mew_code.Teams.Repository.Stored.{validate-stored}
use mew_code.Prelude.Text.{Text, text_eq}
use mew_code.Teams.Models.{TeamState, TeamMemberRecord, Failure}
use mew_code.Teams.Dependencies.{validate_dependencies}
use mew_code.Teams.Repository.{
  TeamLeadLeaseRecord, Disk, Write, atomic_write, stored, validate, valid_registration, load,
  load_state,
}

-- TeamRepository.create: what is returned or raised, and the disk after it
unfoldable pub create : ℕ → Bool → Write → TeamState → Disk → Outcome Failure TeamState × Disk
create teams busy write state disk =
    let checked : Outcome Failure (Unit {0}) = (do
      validate state
      raise_if (leb 128 teams) Failure.validation
      raise_if busy Failure.conflict
      raise_if (is_some disk.state_file) Failure.conflict) in
    let (returned, file) = atomic_write write state disk.state_file in
    elim checked [ err e ↦ (err e, disk) | ok _ ↦ (returned, record disk { state_file = file }) ]

abbrev current_in : Option Text → List Text → Bool
current_in none seen = false
current_in (some id) seen = contains seen id

abbrev with_current : Option Text → List Text → List Text
with_current none seen = seen
with_current (some id) seen = id ∷ seen

-- The first loop of `validate_team_state`, with the names and the current tasks seen so far.
unfoldable pub check_members :
    List Text → List Text → Dict Text TeamMemberRecord → Outcome Failure (Unit {0})
check_members names current [] = ok tt
check_members names current ((key, member) ∷ members) = do
  raise_if (not (key == member.member_id) || contains names member.name.canonical_key)
      Failure.validation
  raise_if (current_in member.current_task_id current) Failure.validation
  check_members (member.name.canonical_key ∷ names) (with_current member.current_task_id current)
      members

unfoldable pub validate_team_state : TeamState → Outcome Failure (Unit {0})
validate_team_state state = do
  check_members [] [] state.members
  raise_if (not (all valid_registration state.registry)) Failure.validation
  validate_dependencies state.tasks
  raise_if (not (distinct (map (λ item. item.member_id) state.queue))) Failure.validation

load_valid :
    (state : TeamState) (lease : Option TeamLeadLeaseRecord) (u : Unit {0})
    → validate state ≡ ok u
    → load state.manifest.name (record { state_file = some state; lease_file = lease }) ≡ ok state
unfolding load load_state
load_valid state lease u valid = ground (arith, ==_self state.manifest.name.canonical_key)

load-stored :
    (state : TeamState) (lease : Option TeamLeadLeaseRecord) (u : Unit {0})
    → validate state ≡ ok u
    → load state.manifest.name (record { state_file = some (stored state); lease_file = lease })
      ≡ ok (stored state)
unfolding stored
load-stored state lease u valid = load_valid (stored state) lease u (validate-stored state ∙ valid)

absent : (o : Option TeamState) → is_some o ≡ false → o ≡ none
absent none q = refl
absent (some s) q = absurd cc

-- A team that is created is returned as it was given, and is the one that is loaded from then on, but for
-- the order of its mappings, in which each key has what it had; there was none before, and the number of
-- teams was below the bound.
pub create-load :
    (teams : ℕ) (busy : Bool) (write : Write) (state created : TeamState) (before after : Disk)
    (task_id : Text)
    → create teams busy write state before ≡ (ok created, after)
    → (created ≡ state)
      × (load state.manifest.name after ≡ ok (stored state))
      × (lookup task_id (stored state).tasks ≡ lookup task_id state.tasks)
      × (before.state_file ≡ none)
      × (leb 128 teams ≡ false)
      × (after.lease_file ≡ before.lease_file)
unfolding create atomic_write stored
create-load teams busy Write.written state created before after task_id h =
    elim (Outcome-cases (validate state)) [
      | inr (e, bad) ↦ absurd (ground arith)
      | inl (u, valid) ↦
          let out : record before { state_file = some (stored state) } ≡ after = ground arith in
          (
            ground arith,
            rw (← out) (load-stored state before.lease_file u valid),
            lookup-sorted task_id state.tasks,
            absent before.state_file (ground arith),
            ground arith,
            rw (← out) refl,
          )
    ]
create-load teams busy Write.failed state created before after task_id h =
    absurd (elim (Outcome-cases (validate state)) [
      | inr (e, bad) ↦ ground arith
      | inl (u, valid) ↦ ground arith
    ])
create-load teams busy Write.failed_after_replace state created before after task_id h =
    absurd (elim (Outcome-cases (validate state)) [
      | inr (e, bad) ↦ ground arith
      | inl (u, valid) ↦ ground arith
    ])
