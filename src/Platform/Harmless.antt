-- ===== src/Platform/Harmless.antt =====
-- The methods of LinuxPlatform that write its fields, and what holds of all its methods.
use canokey_usbip.Prelude.{
  ◌≢◌, inr, String, List, [], ◌∷◌, Option, none, some, Bool, true, false, ℕ,
}
use canokey_usbip.Host.{IsClock, History, diverged, FilePath, Env}
use canokey_usbip.Host.Calls
use canokey_usbip.Host.Within.{ended}
use canokey_usbip.Host.Plain.{free, Anything, Bounded, plain_rules}
use canokey_usbip.Host.Polling.{Waited, found, expired}
use canokey_usbip.Platform.State.{Platform, set_usb_identity}
use canokey_usbip.Platform.Preflight.{prepare_host}
use canokey_usbip.Platform.Usb.{matching_usb_devices}
use canokey_usbip.Platform.Attachment.{
  take_device, look_for_device, attached, await_device, find_port_again, attach, detach_port,
  known_port, detach_owned, detach,
}
use canokey_usbip.Platform.Ready.{wait_ready}
use canokey_usbip.Platform.Debug.{collect_debug}
use canokey_usbip.Platform.Gentle.{Gentle, run_command-Gentle, pcsc_readers-Gentle, poll_for-Gentle}
use canokey_usbip.Platform.Reading.{
  prepare_host-Gentle, matching_usb_devices-Gentle, find_usbip_port-Gentle, baseline_failed-Gentle,
  attach_failed-Gentle, wait_ready-Gentle, collect_debug-Gentle,
}

pub set_usb_identity-Gentle :
    {D : Type 0} (vid pid : String) → Gentle D Anything (set_usb_identity vid pid)
unfolding set_usb_identity
set_usb_identity-Gentle vid pid = search plain_rules

module _ ⦃host : Env⦄ {D : Type 0} (c : Bounded D host) where
  take_device-Gentle : (ds : List FilePath) → Gentle D Anything (take_device ds)
  unfolding take_device
  take_device-Gentle [] = search plain_rules
  take_device-Gentle (d ∷ ds) = search (plain_rules, again-Gentle) depth 20
    where
      again-Gentle : (port : Option String) → Gentle D Anything (find_port_again port)
      again-Gentle none = search (plain_rules, find_usbip_port-Gentle) depth 10
      again-Gentle (some p) = search plain_rules

  look_for_device-Gentle :
      (before : List FilePath) (u : Unit {0}) → Gentle D Anything (look_for_device before u)
  unfolding look_for_device
  look_for_device-Gentle before u =
      search (plain_rules, matching_usb_devices-Gentle, take_device-Gentle) depth 10

  attached-Gentle : (n : ℕ) (w : Waited (Unit {0}) (Unit {0})) → Gentle D Anything (attached n w)
  unfolding attached
  attached-Gentle n (found a) = search plain_rules
  attached-Gentle n (expired b) = search plain_rules

  pub await_device-Gentle : (before : List FilePath) → Gentle D Anything (await_device before)
  unfolding await_device
  await_device-Gentle before =
      search (plain_rules, poll_for-Gentle, look_for_device-Gentle, attached-Gentle) depth 10

  pub attach-Gentle : (before : List FilePath) → Gentle D Anything (attach before)
  unfolding attach
  attach-Gentle before =
      search
        (
          plain_rules, pcsc_readers-Gentle, baseline_failed-Gentle, run_command-Gentle,
          attach_failed-Gentle, find_usbip_port-Gentle, await_device-Gentle,
        )
        depth 40

  detach_port-Gentle : (port : Option String) → Gentle D Anything (detach_port port)
  unfolding detach_port
  detach_port-Gentle none = search plain_rules
  detach_port-Gentle (some port) = search (plain_rules, run_command-Gentle) depth 10

  known_port-Gentle : (port : Option String) → Gentle D Anything (known_port port)
  unfolding known_port
  known_port-Gentle none = search (plain_rules, find_usbip_port-Gentle)
  known_port-Gentle (some port) = search (plain_rules, find_usbip_port-Gentle)

  detach_owned-Gentle : (owns : Bool) → Gentle D Anything (detach_owned owns)
  unfolding detach_owned Calls.which
  detach_owned-Gentle false = search plain_rules
  detach_owned-Gentle true = search (plain_rules, known_port-Gentle, detach_port-Gentle) depth 20

  pub detach-Gentle : Gentle D Anything detach
  unfolding detach
  detach-Gentle = search (plain_rules, detach_owned-Gentle) depth 10

-- Whatever the host answers, the methods of the platform start, wait for, signal, remove and copy
-- nothing themselves, and every PhaseError that they raise carries exit code 1.
pub platform_harmless :
    ⦃host : Env⦄ (before : List FilePath)
    → Gentle (Unit {0}) Anything (prepare_host {S = Platform})
      × Gentle (Unit {0}) Anything matching_usb_devices
      × Gentle (Unit {0}) Anything (attach before)
      × Gentle (Unit {0}) Anything wait_ready
      × Gentle (Unit {0}) Anything collect_debug
      × Gentle (Unit {0}) Anything detach
platform_harmless before = (
  prepare_host-Gentle free,
  matching_usb_devices-Gentle free,
  attach-Gentle free before,
  wait_ready-Gentle free,
  collect_debug-Gentle free,
  detach-Gentle free,
)

-- With a clock that does what time.monotonic and time.sleep document, and programs and calls that
-- return, every method of the platform ends: no loop runs for ever.
pub platform-ends :
    ⦃host : Env⦄
    → IsClock host
    → (before : List FilePath) (p : Platform) (t : History)
    → ((prepare_host p t).0 ≢ diverged)
      × ((matching_usb_devices p t).0 ≢ diverged)
      × ((attach before p t).0 ≢ diverged)
      × ((wait_ready p t).0 ≢ diverged)
      × ((collect_debug p t).0 ≢ diverged)
      × ((detach p t).0 ≢ diverged)
platform-ends clock before p t = (
  ended Anything prepare_host (prepare_host-Gentle (inr clock)) p t tt,
  ended Anything matching_usb_devices (matching_usb_devices-Gentle (inr clock)) p t tt,
  ended Anything (attach before) (attach-Gentle (inr clock) before) p t tt,
  ended Anything wait_ready (wait_ready-Gentle (inr clock)) p t tt,
  ended Anything collect_debug (collect_debug-Gentle (inr clock)) p t tt,
  ended Anything detach (detach-Gentle (inr clock)) p t tt,
)
