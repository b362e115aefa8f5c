-- ===== src/Control/Main.antt =====
-- `main`: the commands, and the exit code of the program.
use canokey_usbip.Prelude.{
  String, ◌<>◌, Option, none, some, [], ◌∷◌, ℤ, pos, negsuc, lookup, is_some, ◌==◌, if◌then◌else◌,
}
use canokey_usbip.Host.{
  Json, JsonDict, sigint, Env, Exc, os_error, other_os, runtime_error, timeout_expired, message,
  is_harness_error, Exec, pure, raise, gets, catch, zoom, ◌>>=◌, ◌>>◌,
}
use canokey_usbip.Host.Calls.{kill, print_error}
use canokey_usbip.Platform.{Platform, matching_usb_devices, detach, collect_debug}
use canokey_usbip.Control.Command.{Command}
use canokey_usbip.Harness.{int_of}
use canokey_usbip.Control.State.{Session, required, platform_of, port_of, load_state, save_state}
use canokey_usbip.Control.Stop.{pid_of, stop_pid, wait_reader_removed}
use canokey_usbip.Control.Start.{stopped_entries, with_platform, attach_device, start}

-- The platform that `main` makes: it owns the attachment whose port the state file names.
unfoldable pub recorded_platform : {S : Type 0} → JsonDict → Exec S Platform
unfolding port_of platform_of
recorded_platform state = do
  platform ← platform_of state
  port ← port_of (lookup "usb_port" state)
  pure (record platform { usb_port = port; owns_attachment = is_some port })

module _ ⦃host : Env⦄ where
  -- if args.command in ("stop", "restart"): up to the write
  unfoldable pub stop_device : Exec Session (Unit {0})
  unfolding pid_of save_state
  stop_device = do
    with_platform detach
    state ← gets (λ s. s.state)
    pid ← pid_of (lookup "pid" state)
    stop_pid pid
    save_state stopped_entries

  unfoldable pub await_removal : Option String → Exec Session (Unit {0})
  await_removal none = pure tt
  await_removal (some reader) = if reader == "" then pure tt else wait_reader_removed reader

  unfoldable pub signal_touch : ℤ → Exec Session (Unit {0})
  signal_touch (pos pid) = kill pid sigint
  signal_touch (negsuc n) = raise (os_error other_os "a process group, which is not modelled")

  unfoldable pub act : Command → Exec Session (Unit {0})
  unfolding stop_device await_removal signal_touch
  act Command.start = start
  act Command.stop = stop_device
  act Command.restart = do stop_device; await_removal (host.environ "CANOKEY_PCSC_READER"); start
  act Command.attach = do before ← with_platform matching_usb_devices; attach_device before
  act Command.detach = do with_platform detach; save_state (("usb_port", Json.null) ∷ [])
  act Command.touch = do
    state ← gets (λ s. s.state)
    value ← required "pid" state
    pid ← int_of (some value)
    signal_touch pid
  act Command.collect_debug = with_platform collect_debug

  unfoldable pub main : Command → Exec (Unit {0}) ℤ
  unfolding recorded_platform act
  main command = do
    (path, state) ← load_state
    platform ← recorded_platform state
    let session : Session = record { state_path = path; state = state; platform = platform }
    zoom (λ u. session) (λ s u. u) (act command)
    pure (pos 0)

  -- if __name__ == "__main__": the errors that end with exit code 1. The others end the program with a
  -- traceback.
  unfoldable pub report_error : Exc → Exec (Unit {0}) ℤ
  report_error (runtime_error m) = do print_error ("canokey-usbip control: " <> m); pure (pos 1)
  report_error (os_error k m) = do print_error ("canokey-usbip control: " <> m); pure (pos 1)
  report_error (timeout_expired m) = do print_error ("canokey-usbip control: " <> m); pure (pos 1)
  report_error e =
      if is_harness_error e
      then (do print_error ("canokey-usbip control: " <> message e); pure (pos 1))
      else raise e

  unfoldable pub control : Command → Exec (Unit {0}) ℤ
  unfolding main report_error
  control command = catch (main command) report_error
