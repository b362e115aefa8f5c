-- ===== src/Control.antt =====
-- compat/runner/control.py: the commands that a test gives to the device while `execute` runs it. They
-- find the device by the state file that `write_state` leaves.
pub mod Command
mod State
mod Stop
mod Start
mod Main
pub mod Resume
pub mod Reading
pub mod Stopping
pub mod Quiet
pub mod Undo
pub mod Recorded
pub mod Named
pub mod Filed
pub mod Launching
pub mod Apart
pub mod Transitions
pub mod Removal
pub mod Sparing
pub mod Reached
pub mod Ends
unfoldable pub use State.*
unfoldable pub use Stop.*
unfoldable pub use Start.*
unfoldable pub use Main.*
