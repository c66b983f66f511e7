-- ===== src/Tui.antt =====
-- cmd/perunnodetui/: the entries of the table of channels that the terminal user interface shows.
pub mod Words
pub mod Text
pub mod Client
pub mod Entry
pub mod Requests
pub mod Registry
pub mod Commands
pub mod Rows
pub mod Placed
pub mod Laws
mod Tests
