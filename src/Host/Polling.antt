-- ===== src/Host/Polling.antt =====
-- The loop that the runner writes again and again:
--   deadline = time.monotonic() + limit
--   while time.monotonic() < deadline: probe, return if it is satisfied; time.sleep(pause)
-- Times are in milliseconds. Each round sleeps, so limit / pause + 2 rounds are fuel enough.
mod Loop
pub mod Ends
pub mod Bounds
pub mod Finds
pub mod Stays
pub mod Found
unfoldable pub use Loop.*
