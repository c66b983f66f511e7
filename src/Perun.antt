-- ===== src/Perun.antt =====
-- perun.go: the types that the parts of the node exchange.
pub mod Info
pub mod Notifs
