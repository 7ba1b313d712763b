-- ===== src/Context.antt =====
-- src/mewcode/context: how long a request and its parts are, and what is kept of a long tool result.
pub mod Estimator
mod Tests
