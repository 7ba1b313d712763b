-- ===== src/Agent.antt =====
-- src/mewcode/agent: the schedule of the tool calls of one turn.
pub mod Calls
pub mod Prepare
pub mod Schedule
mod Tests
