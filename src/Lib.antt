-- ===== src/Lib.antt =====
-- canokey-usbip: the compatibility runner, which builds the virtual CanoKey, attaches it over USB/IP,
-- runs a test command against it and cleans up.
--
-- The parts, and the files that model them:
--   compat/runner/catalog.py: Catalog.antt. list_firmwares is a fold over the requests of a profile with
--     the record Selection for its local variables, Catalog/Main is the program; fetch_ref and
--     firmware_version_for_sha are the look-ups that compat/runner/harness.py makes in the release map.
--   compat/runner/main.py: Options.antt, parse_args from the namespace of argparse on, with the data
--     classes Options and CoreSource of compat/runner/harness.py; Program.antt, the program, which
--     constructs the harness for those options and executes it.
--   compat/runner/harness.py, run_command to copy_core_tree: Command.antt; Text.antt has the string
--     methods and the regular expressions' character classes.
--   compat/runner/harness.py, LinuxPlatform: Platform.antt, the record Platform for its fields. attach
--     and detach own the USB/IP port, wait_ready polls the interfaces and the PC/SC readers.
--   compat/runner/harness.py, Harness: Harness.antt, the record Harness for its fields; Harness/Core and
--     Harness/Identity resolve the source tree, Harness/Build builds, Harness/Server starts and stops
--     the server, Harness/Trial runs the test, Harness/Execute is execute with its error clauses and
--     its finally block. It calls the platform through zoom, which writes the platform back.
--   compat/runner/control.py: Control.antt, the commands that a test gives to the device. The record
--     Session holds the path and the dict of the state file and the platform that main makes of it;
--     Control/State reads the dict, Control/Stop is stop_pid and wait_reader_removed, Control/Start is
--     start with the block that undoes it, Control/Main the commands and the exit code.
--     Control/Recorded is the abstract view, the process and the port that the state file names, with
--     what each command does to it.
--     It shares the platform with the harness, and the state file that write_state writes.
--   Prelude.antt has what the files share; Tests.antt runs the theorems at concrete inputs.
--
-- The host (Host.antt): a call that leaves the program is an Event, and the record Env answers it by any
-- function of the history of events so far, the latest first. A method is an Exec: from a state and a
-- history to a result (a value, an exception, or diverged), the new state and the new history. So every
-- theorem holds for every behaviour of the operating system, the programs and PC/SC that answers each
-- call. IsClock is what time.monotonic and time.sleep document.
--
-- Loops: a loop over a list is recursion on it. The loops up to a deadline are poll_for, on fuel of
-- limit / pause + 2 rounds: each round but the last sleeps for the pause, so the deadline has passed when
-- the fuel would run out. Times are in milliseconds. A result diverged is what a loop gives without fuel;
-- the rules of Within carry a parameter for whether it may occur.
--
-- Proofs: Host has one rule for each way to build an action, for each kind of statement about it (Within,
-- Reaches, Leads, Arrives, Follows, Throughout). The rules of Harness for a whole run hold for every invariant that its steps
-- keep and every predicate on events that allows them (Harness/Lasting), and the theorems instantiate
-- them.
--
-- Not modelled: argparse and its messages; negative timeouts, process groups named by a negative pid,
-- and identities and ports that are no texts in the state file; calls that never return; files that are
-- no UTF-8 text, and paths at which one may not even ask whether they exist; an interrupt of the runner
-- itself; letters, digits and spaces beyond ASCII in lower, strip and the regular
-- expressions; the layout of JSON texts; the C code of the virtual device in Src; the shell wrappers, the
-- build files and the tests.
pub mod Prelude
pub mod Host
pub mod Catalog
pub mod Options
pub mod Text
pub mod Command
pub mod Platform
pub mod Harness
pub mod Program
pub mod Control
pub mod Tests
