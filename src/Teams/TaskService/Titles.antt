-- ===== src/Teams/TaskService/Titles.antt =====
-- A title with a line break: the summary of a message is one line, and is made of the title.
use mathlib.Core.Path.{subst}
use mew_code.Prelude.{
  ℕ, zero, suc, ◌<◌, ◌≡◌, ◌≢◌, ap, ◌∙◌, true, false, some, List, [], ◌∷◌, ◌++◌, take, length,
  contains, ok, arith, >>=-eq-ok, length-append, nat_eq,
}
use mew_code.Prelude.Dict.{lookup}
use mew_code.Prelude.Text.{Text, text_eq, codes}
use mew_code.Teams.Models.{
  TeamState, TeamActor, TeamMessage, TeamTask, TeamProtocol, PayloadValue, valid_summary,
  checked_summary,
}
use mew_code.Teams.TaskFlow.{assign_task}
use mew_code.Teams.Outbox.{Readings, make_message, message}
use mew_code.Teams.TaskService.{member_id_of, assign_and_tell, assignment}
use mew_code.Teams.TaskService.Notices.{assign_task-task}

contains-take : (n c : ℕ) (p q : Text) → length p < n → contains (take n (p ++ (c ∷ q))) c ≡ true
unfolding contains
contains-take zero c p q h = absurd (omega arith)
contains-take (suc n) c [] q h = ground (arith, nat_eq.beq_iff c c)
contains-take (suc n) c (x ∷ p) q h =
    let later = contains-take n c p q (omega arith) in ground arith

valid_summary-one_line : (s : Text) → valid_summary s ≡ true → contains s 10 ≡ false
unfolding valid_summary contains
valid_summary-one_line s h = ground arith

make_message-valid_summary :
    (m m' : TeamMessage) → make_message m ≡ ok m' → valid_summary m.summary ≡ true
unfolding make_message checked_summary
make_message-valid_summary m m' h = ground arith

message-one_line :
    (r : Readings) (sender recipient summary body : Text) (protocol : TeamProtocol)
    (payload : List (Text × PayloadValue)) (m : TeamMessage)
    → message r sender recipient summary body protocol payload ≡ ok m
    → contains (take 256 summary) 10 ≡ false
unfolding message
message-one_line r sender recipient summary body protocol payload m h =
    valid_summary-one_line (take 256 summary) (make_message-valid_summary _ m h)

-- The transformation that `assign` runs raises for a task whose title has a newline character among its
-- first 241 characters, whoever asks, for whatever member and revision.
pub assign_and_tell_line_break :
    (casefold : Text → Text) (actor : TeamActor) (task_id member_name : Text) (revision : ℕ)
    (r : Readings) (s s' : TeamState) (task : TeamTask) (p q : Text)
    → lookup task_id s.tasks ≡ some task
    → task.title ≡ p ++ (10 ∷ q)
    → length p < 241
    → assign_and_tell casefold actor task_id member_name revision r s ≢ ok s'
unfolding assign_and_tell
assign_and_tell_line_break casefold actor task_id member_name revision r s s' task p q found broken
      short h =
    let (member_id, named, next) = >>=-eq-ok (member_id_of casefold s member_name) _ h in
    let ((s1, v), moved, told) =
      >>=-eq-ok (assign_task s actor task_id member_id revision r.now) _ next in
    let (m, sent, put) =
      >>=-eq-ok
        (message r actor.participant_id member_id (codes "Task assigned: " ++ v.task.title)
          v.task.description TeamProtocol.task_assignment (assignment actor v task_id))
        _ told in
    let title : v.task.title ≡ task.title =
      ap (λ t. t.title)
        (assign_task-task s s1 actor task_id member_id revision r.now v task found moved) in
    let one = message-one_line r actor.participant_id member_id _ _ _ _ m sent in
    let there =
      contains-take 256 10 (codes "Task assigned: " ++ p) q
        (omega (arith, length-append (codes "Task assigned: ") p)) in
    let whole : codes "Task assigned: " ++ v.task.title
        ≡ (codes "Task assigned: " ++ p) ++ (10 ∷ q) =
      ap (λ t. codes "Task assigned: " ++ t) (title ∙ broken) in
    let bad = subst (λ z. contains (take 256 z) 10 ≡ false) whole one in cc (bad, there)
