-- ===== src/Harness.antt =====
-- compat/runner/harness.py, class Harness: one run, from the lock to the removal of its workspace.
mod State
pub mod Identity
pub mod Core
mod Build
mod Server
mod Trial
mod Metadata
mod Execute
pub mod Tidy
pub mod TidyRun
pub mod Lasting
pub mod Cleanup
pub mod RunRules
pub mod TidyExecute
pub mod ExitCode
pub mod GivingUp
pub mod FirstFailure
pub mod Locked
pub mod Record
pub mod Ending
pub mod Saved
pub mod Timeout
pub mod Reaping
pub mod Deserving
pub mod Passing
unfoldable pub use State.*
unfoldable pub use Identity.*
unfoldable pub use Core.*
unfoldable pub use Build.*
unfoldable pub use Server.*
unfoldable pub use Trial.*
unfoldable pub use Metadata.*
unfoldable pub use Execute.*
