-- ===== src/Teams.antt =====
-- src/mewcode/teams: the persistent team of a lead and its members.
pub mod Models
pub mod Dependencies
pub mod Approvals
pub mod Tasks
pub mod TaskFlow
pub mod Members
pub mod Repository
pub mod Leases
pub mod Creation
pub mod Invariant
pub mod Outbox
pub mod TaskService
pub mod ApprovalService
pub mod Samples
mod Tests
mod ServiceTests
