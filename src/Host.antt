-- ===== src/Host.antt =====
-- What the runner asks of its host: the calls of compat/runner/*.py into the operating system, other
-- programs and PC/SC. A call is an event; the history of a run is the list of its events, the latest
-- first, and the host answers a call by any function of the history so far.
mod Events
mod Errors
mod Machine
mod Action
pub mod Calls
pub mod Emits
pub mod Within
pub mod Plain
pub mod Reaches
pub mod Finals
pub mod Leads
pub mod Throughout
pub mod Arrives
pub mod Known
pub mod Follows
pub mod Parts
pub mod Inversion
pub mod Polling
unfoldable pub use Events.*
unfoldable pub use Errors.*
unfoldable pub use Machine.*
unfoldable pub use Action.*
