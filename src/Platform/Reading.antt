-- ===== src/Platform/Reading.antt =====
-- The methods of LinuxPlatform that only read its fields.
use canokey_usbip.Prelude.{lookup, String, List, [], ◌∷◌, Option, none, some, Bool, ℕ}
use canokey_usbip.Host.{FilePath, Env, Exec, Exc}
use canokey_usbip.Host.Calls
use canokey_usbip.Host.Within.{Within-bind, Within-if}
use canokey_usbip.Host.Plain.{IsPlain, Bounded, plain_rules}
use canokey_usbip.Host.Polling.{Waited, found, expired}
use canokey_usbip.Platform.State.{Platform}
use canokey_usbip.Platform.Preflight.{prepare_host}
use canokey_usbip.Platform.Usb.{
  match_devices, matching_usb_devices, read_classes, interface_classes_of, interface_classes,
  any_below, hidraw_ready_of, hidraw_ready,
}
use canokey_usbip.Platform.Ports.{find_usbip_port}
use canokey_usbip.Platform.Attachment.{baseline_failed, attach_failed}
use canokey_usbip.Platform.Ready.{
  Requirements, Status, picked, pick, requirement_status, readiness_failed, device_exists,
  probe_status, check_ready, ready_or_timeout, wait_ready,
}
use canokey_usbip.Platform.Debug.{collect, collect_udev, collect_journal, collect_debug}
use canokey_usbip.Platform.Gentle.{
  Gentle, run_command-Gentle, pcsc_readers-Gentle, poll_for-Gentle, on_os_error-Gentle,
}

module _ ⦃host : Env⦄ {D : Type 0} (c : Bounded D host) {I : Platform → Type 0} where
  pub prepare_host-Gentle : Gentle D I (prepare_host {S = Platform})
  unfolding prepare_host Calls.exists Calls.is_dir Calls.which
  prepare_host-Gentle = search (plain_rules, run_command-Gentle) depth 40

  match_devices-Gentle : (fs ds : List FilePath) → Gentle D I (match_devices fs ds)
  unfolding match_devices Calls.read_text Calls.resolve
  match_devices-Gentle [] ds = search plain_rules
  match_devices-Gentle (f ∷ fs) ds =
      search (plain_rules, on_os_error-Gentle, match_devices-Gentle fs) depth 20

  pub matching_usb_devices-Gentle : Gentle D I matching_usb_devices
  unfolding matching_usb_devices Calls.exists Calls.glob
  matching_usb_devices-Gentle = search (plain_rules, match_devices-Gentle) depth 20

  pub find_usbip_port-Gentle : Gentle D I find_usbip_port
  unfolding find_usbip_port
  find_usbip_port-Gentle = search (plain_rules, run_command-Gentle) depth 10

  read_classes-Gentle : (vs cs : List String) → Gentle D I (read_classes vs cs)
  unfolding read_classes Calls.read_text
  read_classes-Gentle [] cs = search plain_rules
  read_classes-Gentle (v ∷ vs) cs =
      search (plain_rules, on_os_error-Gentle, read_classes-Gentle vs) depth 20

  interface_classes_of-Gentle : (d : Option FilePath) → Gentle D I (interface_classes_of d)
  unfolding interface_classes_of Calls.glob
  interface_classes_of-Gentle none = search plain_rules
  interface_classes_of-Gentle (some d) = search (plain_rules, read_classes-Gentle) depth 10

  interface_classes-Gentle : Gentle D I interface_classes
  unfolding interface_classes
  interface_classes-Gentle = search (plain_rules, interface_classes_of-Gentle) depth 10

  any_below-Gentle : (base : FilePath) (es : List FilePath) → Gentle D I (any_below base es)
  unfolding any_below Calls.resolve
  any_below-Gentle base [] = search plain_rules
  any_below-Gentle base (e ∷ es) =
      Within-bind _ _ (search (plain_rules, on_os_error-Gentle) depth 20)
        (λ below. Within-if below _ _ (search plain_rules) (any_below-Gentle base es))

  hidraw_ready_of-Gentle : (d : Option FilePath) → Gentle D I (hidraw_ready_of d)
  unfolding hidraw_ready_of Calls.glob
  hidraw_ready_of-Gentle none = search plain_rules
  hidraw_ready_of-Gentle (some d) = search (plain_rules, any_below-Gentle) depth 10

  hidraw_ready-Gentle : Gentle D I hidraw_ready
  unfolding hidraw_ready
  hidraw_ready-Gentle = search (plain_rules, hidraw_ready_of-Gentle) depth 10

  pub baseline_failed-Gentle :
      {A : Type 0} (e : Exc) → IsPlain e → Gentle D I (baseline_failed {A = A} e)
  unfolding baseline_failed
  baseline_failed-Gentle (Exc.pcsc_query_error m) p = search plain_rules
  baseline_failed-Gentle e p = search (plain_rules, p)

  pub attach_failed-Gentle :
      {A : Type 0} (e : Exc) → IsPlain e → Gentle D I (attach_failed {A = A} e)
  unfolding attach_failed
  attach_failed-Gentle (Exc.timeout_expired m) p = search plain_rules
  attach_failed-Gentle e p = search (plain_rules, p)

  picked-Gentle :
      (n : String) (o : Option Bool) (rest : Exec Platform Requirements)
      → Gentle D I rest
      → Gentle D I (picked n o rest)
  unfolding picked
  picked-Gentle n none rest g = search plain_rules
  picked-Gentle n (some ready) rest g = search plain_rules depth 10

  pick-Gentle : (table : Requirements) (names : List String) → Gentle D I (pick table names)
  unfolding pick
  pick-Gentle table [] = search plain_rules
  pick-Gentle table (n ∷ ns) = picked-Gentle n (lookup n table) _ (pick-Gentle table ns)

  pub requirement_status-Gentle :
      (names : List String) (s : Status) → Gentle D I (requirement_status names s)
  unfolding requirement_status
  requirement_status-Gentle [] s = search plain_rules
  requirement_status-Gentle (n ∷ ns) s = search (plain_rules, pick-Gentle)

  readiness_failed-Gentle :
      {A : Type 0} (e : Exc) → IsPlain e → Gentle D I (readiness_failed {A = A} e)
  unfolding readiness_failed
  readiness_failed-Gentle (Exc.pcsc_query_error m) p = search plain_rules
  readiness_failed-Gentle e p = search (plain_rules, p)

  device_exists-Gentle : (d : Option FilePath) → Gentle D I (device_exists d)
  unfolding device_exists Calls.exists
  device_exists-Gentle none = search plain_rules
  device_exists-Gentle (some d) = search plain_rules

  pub probe_status-Gentle : Gentle D I probe_status
  unfolding probe_status
  probe_status-Gentle =
      search
        (
          plain_rules, interface_classes-Gentle, pcsc_readers-Gentle, readiness_failed-Gentle,
          device_exists-Gentle, hidraw_ready-Gentle,
        )
        depth 40

  pub check_ready-Gentle : (last : Requirements × Option Status) → Gentle D I (check_ready last)
  unfolding check_ready
  check_ready-Gentle last =
      search (plain_rules, probe_status-Gentle, requirement_status-Gentle) depth 20

  ready_or_timeout-Gentle :
      (n : ℕ) (w : Waited (Requirements × Option Status) Status) → Gentle D I (ready_or_timeout n w)
  unfolding ready_or_timeout
  ready_or_timeout-Gentle n (found a) = search plain_rules
  ready_or_timeout-Gentle n (expired b) = search plain_rules

  pub wait_ready-Gentle : Gentle D I wait_ready
  unfolding wait_ready
  wait_ready-Gentle =
      search (plain_rules, poll_for-Gentle, check_ready-Gentle, ready_or_timeout-Gentle) depth 10

  collect-Gentle : (f p : String) (args : List String) → Gentle D I (collect f p args)
  unfolding collect Calls.which Calls.open_log Calls.write_text
  collect-Gentle f p args = search (plain_rules, run_command-Gentle) depth 20

  collect_udev-Gentle : (d : Option FilePath) → Gentle D I (collect_udev d)
  unfolding collect_udev Calls.which Calls.open_log
  collect_udev-Gentle none = search plain_rules
  collect_udev-Gentle (some d) = search (plain_rules, run_command-Gentle) depth 20

  collect_journal-Gentle : Gentle D I collect_journal
  unfolding collect_journal Calls.which Calls.open_log
  collect_journal-Gentle = search (plain_rules, run_command-Gentle) depth 20

  pub collect_debug-Gentle : Gentle D I collect_debug
  unfolding collect_debug
  collect_debug-Gentle =
      search (plain_rules, collect-Gentle, collect_udev-Gentle, collect_journal-Gentle) depth 20
