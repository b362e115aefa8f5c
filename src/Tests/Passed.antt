-- ===== src/Tests/Passed.antt =====
-- A whole run, on a host where everything works and a device appears once the server runs.
use canokey_usbip.Prelude.{◌≡◌, refl, Bool, true, false, ◌==◌, if◌then◌else◌, [], ◌∷◌, pos, ◌⊎◌}
use canokey_usbip.Host.{
  Env, History, Event, completed, done, loaded, in_phase, ◌>>=◌, gets, zoom, catch, raise_if,
  modify, finally, pure, join,
}
use canokey_usbip.Host.Calls
use canokey_usbip.Host.Polling.{poll_for}
use canokey_usbip.Catalog.{fetch_ref, firmware_version_for_sha}
use canokey_usbip.Command.{git_value, run_command, tool_version}
use canokey_usbip.Text.Strip.{lower, strip, parent}
use canokey_usbip.Text.Match.{has_part, strip_prefix}
use canokey_usbip.Platform.{
  prepare_host, matching_usb_devices, attach, wait_ready, probe_status, interface_classes,
  hidraw_ready, pcsc_readers, requirement_status, parse_ports, find_usbip_port, detach,
  collect_debug, set_usb_identity,
}
use canokey_usbip.Harness.{
  Harness, new_harness, execute_run, started, self, base_metadata, initial_metadata, save_metadata,
  lifecycle, handle, cleanup, acquire_lock, resolve_core, core_usb_identity, apply_patches, build,
  asserted, start_server, write_state, run_test, drive_device, enter, collect, show_debug,
  detach_owned_port, stop, stop_server, record_end, drop_workspace, preserves_workspace,
}
use canokey_usbip.Harness.Deserving.{PassesTest}
use canokey_usbip.Harness.Passing.{execute-PassesTest}
use canokey_usbip.Tests.Machine.{busy, elapsed}
use canokey_usbip.Tests.Runs.{options}

is_served : History → Bool
is_served [] = false
is_served (Event.popen argv cwd added ∷ t) = true
is_served (e ∷ t) = is_served t

-- The one commit, and the one bus id, is 1-1.
abbrev working : Env
working = record busy {
  run = λ argv cwd timeout log t.
      completed (record { returncode = pos 0; stdout = "1-1"; stderr = "" });
  read_mappings = λ p t. loaded (("3.0.1", "1-1") ∷ []);
  flock = λ p t. done tt;
  glob = λ p pattern' t. if is_served t then "/sys/bus/usb/devices/3-1/idVendor" ∷ [] else [];
  read_text = λ p t. done (if p == "/sys/bus/usb/devices/3-1/idVendor" then "20a0" else "42d4");
  pcsclite_found = λ t. false;
}

abbrev testing : Harness
testing =
    new_harness ⦃host = working⦄ (record options { readiness_requirements = "usb" ∷ [] }) "run"
      "/tmp"

execute-PassesTest_example :
    (false ≡ true)
    ⊎ PassesTest ⦃host = working⦄ testing.options
        (execute_run ⦃host = working⦄ "/tmp" (started ⦃host = working⦄ "/tmp" testing) []).2
unfolding execute_run ◌>>=◌ gets Calls.mkdir self zoom base_metadata git_value catch run_command
    Calls.run raise_if tool_version Calls.utc_now modify save_metadata Calls.write_text finally
    lifecycle handle cleanup acquire_lock Calls.open_log Calls.flock in_phase Calls.print_error
    collect collect_debug Calls.which new_harness show_debug detach_owned_port stop stop_server
    Calls.exists Calls.read_json record_end drop_workspace Calls.rmtree preserves_workspace detach
    resolve_core pure Calls.read_mappings Calls.is_file core_usb_identity strip apply_patches
    firmware_version_for_sha fetch_ref set_usb_identity initial_metadata asserted build
    Calls.resolve drive_device prepare_host Calls.is_dir matching_usb_devices Calls.glob is_served
    Calls.read_text lower parent join start_server Calls.popen write_state poll_for Calls.monotonic
    elapsed Calls.poll has_part attach pcsc_readers Calls.find_pcsclite find_usbip_port parse_ports
    wait_ready probe_status interface_classes hidraw_ready requirement_status run_test Calls.wait
    enter strip_prefix
execute-PassesTest_example =
    execute-PassesTest ⦃host = working⦄ "/tmp" (started ⦃host = working⦄ "/tmp" testing) [] refl
