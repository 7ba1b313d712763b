-- ===== src/Permissions.antt =====
-- src/mewcode/permissions: rules over tool calls, their precedence, and the controller.
pub mod Models
pub mod Rules
pub mod Controller
pub mod Challenge
mod Tests
