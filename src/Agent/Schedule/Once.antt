-- ===== src/Agent/Schedule/Once.antt =====
-- The events of a schedule are read once.
use mew_code.Prelude.{ℕ, ◌≡◌, refl, false, List, Bool-cases, Outcome, ok, err, inl, inr}
use mew_code.Glob.{Platform}
use mew_code.Permissions.Models.{PermissionMode, PermissionRuleSets}
use mew_code.Tools.{ToolRegistry}
use mew_code.Agent.Calls.{Circumstances, PreparedCall, Run, ScheduleError}
use mew_code.Agent.Schedule.{ToolSchedule, is_new, end_events, events}

end_events-is_new :
    (s : ToolSchedule) (out : Outcome ScheduleError Run) → is_new (end_events s out).0.state ≡ false
unfolding end_events
end_events-is_new s (ok run) = refl
end_events-is_new s (err e) = refl

module _ (platform : Platform) (mode : PermissionMode) (registry : ToolRegistry)
    (world : ℕ → Circumstances) (order : List PreparedCall → List PreparedCall)
    (rules : PermissionRuleSets) where
  events-is_new :
      (s : ToolSchedule)
      → is_new (events platform mode registry world order rules s).0.state ≡ false
  unfolding events
  events-is_new s = elim (Bool-cases (is_new s.state)) [
    | inl fresh ↦ rw fresh (end_events-is_new s _)
    | inr used ↦ rw used used
  ]

  events-used :
      (s : ToolSchedule)
      → is_new s.state ≡ false
      → events platform mode registry world order rules s ≡ (s, err ScheduleError.state_error)
  unfolding events
  events-used s used = rw used refl

-- Whatever the first reading of the events came to, a second one runs nothing: it leaves the schedule
-- as it was and is an error.
pub events_once :
    (platform : Platform) (mode : PermissionMode) (registry : ToolRegistry)
    (world world' : ℕ → Circumstances) (order order' : List PreparedCall → List PreparedCall)
    (rules rules' : PermissionRuleSets) (s : ToolSchedule)
    → events platform mode registry world' order' rules'
        (events platform mode registry world order rules s).0
      ≡ ((events platform mode registry world order rules s).0, err ScheduleError.state_error)
events_once platform mode registry world world' order order' rules rules' s =
    events-used platform mode registry world' order' rules' _
      (events-is_new platform mode registry world order rules s)
