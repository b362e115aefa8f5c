-- ===== src/Tests/Ended.antt =====
-- How a run and its test command end, on the host that works.
use canokey_usbip.Prelude.{◌≡◌, refl, none, some, [], ◌∷◌, String, pos, true, false}
use canokey_usbip.Host.{
  completed, done, in_phase, ◌>>=◌, gets, zoom, catch, raise_if, modify, finally, pure, Env,
}
use canokey_usbip.Host.Calls
use canokey_usbip.Command.{git_value, run_command, tool_version}
use canokey_usbip.Platform.{collect_debug, detach}
use canokey_usbip.Platform.GivingUp.{HasGivenUp}
use canokey_usbip.Harness.{
  Harness, new_harness, execute_run, started, self, base_metadata, save_metadata, lifecycle, handle,
  cleanup, acquire_lock, collect, show_debug, detach_owned_port, stop, stop_server, record_end,
  drop_workspace, preserves_workspace,
}
use canokey_usbip.Harness.GivingUp.{execute-HasGivenUp}
use canokey_usbip.Harness.Locked.{StartsLocked, lock_file, execute-StartsLocked}
use canokey_usbip.Harness.Record.{IsRecorded, IsWritten, execute-IsRecorded}
use canokey_usbip.Harness.Ending.{Disposes, execute-DropsWorkspace}
use canokey_usbip.Options.{CoreSource}
use canokey_usbip.Catalog.{firmware_version_for_sha}
use canokey_usbip.Text.Strip.{strip}
use canokey_usbip.Harness.{resolve_core, core_usb_identity, apply_patches}
use canokey_usbip.Harness.Core.Resolved.{ResolvesTo, resolve_core-ResolvesTo}
use canokey_usbip.Tests.Machine.{busy}
use canokey_usbip.Tests.Runs.{harness}

execute-IsRecorded_example :
    let (code, r', t') =
      execute_run ⦃host = busy⦄ "/tmp" (started ⦃host = busy⦄ "/tmp" harness) [] in
    (pos 1 ≡ r'.result) × IsRecorded r' × IsWritten r' t'
unfolding execute_run ◌>>=◌ gets Calls.mkdir self zoom base_metadata git_value catch run_command
    Calls.run raise_if tool_version Calls.utc_now modify save_metadata Calls.write_text finally
    lifecycle handle cleanup acquire_lock Calls.open_log Calls.flock in_phase Calls.print_error
    collect collect_debug Calls.which new_harness show_debug detach_owned_port stop stop_server
    Calls.exists Calls.read_json record_end drop_workspace Calls.rmtree preserves_workspace
execute-IsRecorded_example =
    execute-IsRecorded ⦃host = busy⦄ "/tmp" (started ⦃host = busy⦄ "/tmp" harness) [] (pos 1) refl

execute-DropsWorkspace_example :
    Disposes harness.options harness.workspace
      (pos 1)
      []
      (execute_run ⦃host = busy⦄ "/tmp" (started ⦃host = busy⦄ "/tmp" harness) []).2
unfolding execute_run ◌>>=◌ gets Calls.mkdir self zoom base_metadata git_value catch run_command
    Calls.run raise_if tool_version Calls.utc_now modify save_metadata Calls.write_text finally
    lifecycle handle cleanup acquire_lock Calls.open_log Calls.flock in_phase Calls.print_error
    collect collect_debug Calls.which new_harness show_debug detach_owned_port stop stop_server
    Calls.exists Calls.read_json record_end drop_workspace Calls.rmtree preserves_workspace
execute-DropsWorkspace_example =
    execute-DropsWorkspace ⦃host = busy⦄ "/tmp" (started ⦃host = busy⦄ "/tmp" harness) [] (pos 1)
      refl

-- With an attachment from before.
abbrev owning : Harness
owning = record harness {
  platform = record harness.platform { owns_attachment = true; usb_port = some "00" };
}

execute-HasGivenUp_example :
    HasGivenUp
      (execute_run ⦃host = busy⦄ "/tmp" (started ⦃host = busy⦄ "/tmp" owning) []).1.harness.platform
unfolding execute_run ◌>>=◌ gets Calls.mkdir self zoom base_metadata git_value catch run_command
    Calls.run raise_if tool_version Calls.utc_now modify save_metadata Calls.write_text finally
    lifecycle handle cleanup acquire_lock Calls.open_log Calls.flock in_phase Calls.print_error
    collect collect_debug Calls.which new_harness show_debug detach_owned_port stop stop_server
    Calls.exists Calls.read_json record_end drop_workspace Calls.rmtree preserves_workspace detach
execute-HasGivenUp_example =
    execute-HasGivenUp ⦃host = busy⦄ "/tmp" (started ⦃host = busy⦄ "/tmp" owning) [] (pos 1)
      (λ t. refl) refl

-- The lock is free.
abbrev idle : Env
idle = record busy { flock = λ p t. done tt }

execute-StartsLocked_example :
    StartsLocked ⦃host = idle⦄
      (lock_file "/tmp")
      []
      (execute_run ⦃host = idle⦄ "/tmp" (started ⦃host = idle⦄ "/tmp" harness) []).2
execute-StartsLocked_example =
    execute-StartsLocked ⦃host = idle⦄ "/tmp" (started ⦃host = idle⦄ "/tmp" harness) []

abbrev resolved : Harness
resolved = record harness {
  core = some (record {
    path = "/core";
    sha = "aaaa";
    ref = "3.0.1";
    dirty = false;
    patches = [];
    usb_vid = "20a0";
    usb_pid = "42d4";
    firmware_version = some "3.0.1";
  });
}

-- The command does not end in time.
abbrev slow : Env
slow = record busy { wait = λ pid seconds t. none }

-- A commit with a patch.
abbrev patched : String
patched = "cba7ea34c893eb6405620e9f2b562de0c441b1d6"

abbrev fetching : Env
fetching = record busy {
  run = λ argv cwd timeout log t.
      completed (record { returncode = pos 0; stdout = patched; stderr = "" });
}

abbrev fetched : CoreSource
fetched = record {
  path = "/tmp/canokey-usbip/run/core";
  sha = patched;
  ref = "3.0.1";
  dirty = false;
  patches = "core-3.1.0-fabrication.patch" ∷ [];
  usb_vid = "20a0";
  usb_pid = "42d4";
  firmware_version = none;
}

resolve_core-ResolvesTo_example :
    ResolvesTo ⦃host = fetching⦄ harness.options harness.workspace fetched
      (resolve_core ⦃host = fetching⦄ harness []).2
unfolding resolve_core ◌>>=◌ gets pure new_harness Calls.read_mappings Calls.mkdir run_command
    Calls.run raise_if catch git_value Calls.is_file core_usb_identity strip apply_patches
    firmware_version_for_sha
resolve_core-ResolvesTo_example = resolve_core-ResolvesTo ⦃host = fetching⦄ harness [] fetched refl
