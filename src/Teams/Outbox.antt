-- ===== src/Teams/Outbox.antt =====
-- src/mewcode/teams/tasks.py, approvals.py: the messages that the services put in the outbox.
use mew_code.Prelude.{
  false, if◌then◌else◌, Option, none, some, List, [], ◌∷◌, ◌++◌, take, ltb, Outcome, ok, ◌>>◌,
  raise_if, or_raise,
}
use mew_code.Prelude.Dict.{Dict, values}
use mew_code.Prelude.Text.{Text, utf8_length}
use mew_code.Teams.Models.{
  Time, TeamState, TeamMessage, TeamOutboxEntry, TeamProtocol, PayloadValue, MailboxRegistration,
  Failure, require_identifier, checked_summary,
}
use mew_code.Teams.Invariant.{IsConsistent}
use mew_code.Teams.Repository.{participant_ids}

-- What `self._now()` and `self._new_id()` give in a transformation, in the order of the calls.
pub record Readings : Type 0 where
  pub now : Time
  pub message_id : Text
  pub sent_at : Time
  pub outbox_id : Text
  pub entry_at : Time
  pub updated_at : Time

-- TeamMessage.__post_init__
unfoldable pub make_message : TeamMessage → Outcome Failure TeamMessage
make_message m = do
  require_identifier m.message_id
  require_identifier m.sender_id
  require_identifier m.recipient_id
  checked_summary m.summary
  raise_if (ltb 65536 (utf8_length m.body)) Failure.validation
  ok m

-- _message
unfoldable pub message :
    Readings
    → Text
    → Text
    → Text
    → Text
    → TeamProtocol
    → Dict Text PayloadValue
    → Outcome Failure TeamMessage
message r sender_id recipient_id summary body protocol payload = make_message (record {
  schema_version = 1;
  message_id = r.message_id;
  correlation_id = none;
  sender_id = sender_id;
  recipient_id = recipient_id;
  summary = take 256 summary;
  body = body;
  protocol = protocol;
  payload = payload;
  sent_at = r.sent_at;
  read = false;
})

abbrev pub entry_of : Readings → TeamMessage → TeamOutboxEntry
entry_of r m = record {
  outbox_id = r.outbox_id;
  message = m;
  delivered = false;
  created_at = r.entry_at;
  delivered_at = none;
  last_error = none;
}

-- _append_outbox, and _outbox of the approvals
unfoldable pub append_outbox : Readings → TeamState → TeamMessage → Outcome Failure TeamState
append_outbox r state m = do
  require_identifier r.outbox_id
  ok (record state { outbox = state.outbox ++ entry_of r m ∷ []; updated_at = r.updated_at })

unfoldable pub first_lead : List MailboxRegistration → Option Text
first_lead [] = none
first_lead (item ∷ items) =
    let later = first_lead items in if item.is_lead then some item.participant_id else later

-- `next((item.participant_id for item in state.registry.values() if item.is_lead), None)`, which must
-- be there
unfoldable pub find_lead : TeamState → Outcome Failure Text
find_lead state = or_raise (first_lead (values state.registry)) Failure.validation

-- A new outbox keeps the state consistent.
pub put_outbox-IsConsistent :
    (s : TeamState) (entries : List TeamOutboxEntry) (now : Time)
    → IsConsistent s
    → IsConsistent (record s { outbox = entries; updated_at = now })
unfolding participant_ids
put_outbox-IsConsistent s entries now c = record {
  members_unique = c.members_unique;
  member_ids = c.member_ids;
  registered = c.registered;
  current_known = c.current_known;
  tasks_keyed = c.tasks_keyed;
  dependencies_known = c.dependencies_known;
  acyclic = c.acyclic;
  assignee_known = c.assignee_known;
  current_assigned = c.current_assigned;
  approvals_unique = c.approvals_unique;
  approvals_known = c.approvals_known;
  queue_known = c.queue_known;
  queue_distinct = c.queue_distinct;
}
