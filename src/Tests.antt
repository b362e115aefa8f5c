-- ===== src/Tests.antt =====
-- A concrete host, and the theorems at concrete inputs.
mod Stops
mod Machine
mod Runs
mod Endings
mod Devices
mod Taken
mod Commands
mod Loops
mod Ended
mod Passed
mod Lookups
