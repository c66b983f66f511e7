-- ===== src/Session.antt =====
-- session/: the session of a user on the node.
pub mod Timeout
pub mod Failures
pub mod ChRegistry
pub mod Opening
mod Tests
pub mod State
