-- ===== src/Platform.antt =====
-- compat/runner/harness.py, class LinuxPlatform: the host side of the device. Each method is an
-- action on the object's fields.
mod State
mod Preflight
mod Usb
pub mod Ports
mod Pcsc
mod Attachment
mod Ready
mod Debug
pub mod Gentle
pub mod Reading
pub mod Readiness
pub mod Harmless
pub mod Detach
pub mod GivingUp
pub mod Taking
pub mod MultiString
unfoldable pub use State.*
unfoldable pub use Preflight.*
unfoldable pub use Usb.*
unfoldable pub use Ports.*
unfoldable pub use Pcsc.*
unfoldable pub use Attachment.*
unfoldable pub use Ready.*
unfoldable pub use Debug.*
