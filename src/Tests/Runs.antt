-- ===== src/Tests/Runs.antt =====
-- Whole runs, the polling loop and the command line, on the host that works.
use canokey_usbip.Prelude.{
  suc, ◌≡◌, ◌≢◌, refl, ℕ, true, false, not, ◌||◌, none, some, [], ◌∷◌, pos, is_zero, is_some, fresh,
  ◌≤◌, ◌<◌, ◌+◌, arith,
}
use canokey_usbip.Host.Calls
use canokey_usbip.Command.{git_value, run_command, tool_version}
use canokey_usbip.Platform.{collect_debug}
use canokey_usbip.Host.{
  in_phase, ◌>>=◌, gets, zoom, catch, raise_if, modify, finally, History, diverged, Exec, pure,
}
use canokey_usbip.Host.Emits.{Extends, Emits-pure}
use canokey_usbip.Host.Polling.{Probe, go_on, poll_for}
use canokey_usbip.Host.Polling.Ends.{poll_for-ends, poll_for-expired}
use canokey_usbip.Options.{Options, Arguments, is_given, parse_args}
use canokey_usbip.Options.Parse.{parse_args-accepted}
use canokey_usbip.Harness.{Harness, new_harness}
use canokey_usbip.Harness.{
  execute_run, started, self, base_metadata, save_metadata, lifecycle, handle, cleanup,
  acquire_lock, collect, show_debug, detach_owned_port, stop, stop_server, record_end,
  drop_workspace, preserves_workspace,
}
use canokey_usbip.Harness.ExitCode.{execute-exit_code}
use canokey_usbip.Harness.TidyExecute.{OnlyRemoves, execute-OnlyRemoves}
use canokey_usbip.Tests.Machine.{busy, busy-IsClock, elapsed}

abbrev pub arguments : Arguments
arguments = record {
  core_ref = some "3.0.1";
  core_dir = none;
  test_command = some "pytest";
  readiness_requirements = "hid" ∷ "pcsc" ∷ "hid" ∷ [];
  storage = none;
  timeout = pos 30;
  keep_on_failure = false;
  touch = false;
  output_dir = some "/out";
  build_only = false;
  build_dir = none;
}

abbrev pub options : Options
options = record {
  repo_dir = "/repo";
  caller_dir = ".";
  core_ref = some "3.0.1";
  core_dir = none;
  test_command = some "pytest";
  storage = none;
  timeout = 30;
  keep_on_failure = false;
  output_dir = "/out";
  build_only = false;
  build_dir = none;
  touch = false;
  readiness_requirements = "hid" ∷ "pcsc" ∷ [];
}

parse_args-accepted_example :
    (0 < options.timeout)
    × ((options.build_only || is_given options.test_command) ≡ true)
    × (pos options.timeout ≡ arguments.timeout)
    × (options.readiness_requirements ≡ fresh [] arguments.readiness_requirements)
unfolding parse_args ◌>>=◌ raise_if Calls.resolve
parse_args-accepted_example = parse_args-accepted ⦃host = busy⦄ "/repo" arguments [] options refl

abbrev pub harness : Harness
harness = new_harness ⦃host = busy⦄ options "run" "/tmp"

execute-OnlyRemoves_example :
    let (code, r', t') =
      execute_run ⦃host = busy⦄ "/tmp" (started ⦃host = busy⦄ "/tmp" harness) [] in
    Extends (OnlyRemoves harness.workspace) [] t' × (r'.harness.workspace ≡ harness.workspace)
execute-OnlyRemoves_example =
    execute-OnlyRemoves ⦃host = busy⦄ "/tmp" (started ⦃host = busy⦄ "/tmp" harness) []

execute-exit_code_example :
    let r' = (execute_run ⦃host = busy⦄ "/tmp" (started ⦃host = busy⦄ "/tmp" harness) []).1 in
    (pos 1 ≡ r'.result) × (is_some r'.failure ≡ not (is_zero (pos 1)))
unfolding execute_run ◌>>=◌ gets Calls.mkdir self zoom base_metadata git_value catch run_command
    Calls.run raise_if tool_version Calls.utc_now modify save_metadata Calls.write_text finally
    lifecycle handle cleanup acquire_lock Calls.open_log Calls.flock in_phase Calls.print_error
    collect collect_debug Calls.which new_harness show_debug detach_owned_port stop stop_server
    Calls.exists Calls.read_json record_end drop_workspace Calls.rmtree preserves_workspace
execute-exit_code_example = execute-exit_code ⦃host = busy⦄ "/tmp" harness [] (pos 1) refl

-- A probe that is never satisfied.
abbrev never : ℕ → Exec (Unit {0}) (Probe ℕ ℕ)
never n = pure (go_on (suc n))

never-total : (n : ℕ) (s : Unit {0}) (t : History) → (never n s t).0 ≢ diverged
unfolding pure
never-total n s t h = cc

poll_for-ends_example : (poll_for ⦃host = busy⦄ 1000 250 0 never tt []).0 ≢ diverged
poll_for-ends_example =
    poll_for-ends ⦃host = busy⦄ busy-IsClock {P = λ e. Unit {0}} never 250 never-total
      (λ n. Emits-pure (go_on (suc n))) 1000 0 tt [] (omega arith)

poll_for-expired_example :
    elapsed [] + 1000 ≤ elapsed (poll_for ⦃host = busy⦄ 1000 250 0 never tt []).2
unfolding poll_for ◌>>=◌ Calls.monotonic elapsed pure Calls.sleep
poll_for-expired_example = poll_for-expired ⦃host = busy⦄ busy-IsClock never 250 1000 0 4 tt [] refl
