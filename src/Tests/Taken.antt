-- ===== src/Tests/Taken.antt =====
-- A host with the virtual device, which the runner takes and finds ready.
use canokey_usbip.Prelude.{◌≡◌, refl, true, false, [], ◌∷◌, ◌==◌, if◌then◌else◌, map, sorted}
use canokey_usbip.Host.{Env, History, done, ok, ◌>>=◌, gets, catch, pure, modify, raise_if, join}
use canokey_usbip.Host.Calls
use canokey_usbip.Host.Polling.{poll_for}
use canokey_usbip.Command.{run_command}
use canokey_usbip.Platform.{
  Platform, Status, probe_status, wait_ready, attach, read_readers, interface_classes, pcsc_readers,
  hidraw_ready, find_usbip_port, matching_usb_devices, requirement_status, parse_ports,
}
use canokey_usbip.Text.Strip.{lower, strip, parent}
use canokey_usbip.Text.Match.{has_part}
use canokey_usbip.Platform.Readiness.{meets, wait_ready-meets}
use canokey_usbip.Platform.Taking.{Holds, attach-Holds}
use canokey_usbip.Platform.MultiString.{multi_string, read_readers-multi_string}
use canokey_usbip.Tests.Machine.{busy, elapsed}
use canokey_usbip.Tests.Devices.{plugged}

abbrev device : Env
device = record busy {
  glob = λ p pattern' t. "/sys/bus/usb/devices/3-1/idVendor" ∷ [];
  read_text = λ p t. done (if p == "/sys/bus/usb/devices/3-1/idVendor" then "20a0" else "42d4");
  pcsclite_found = λ t. false;
  list_buffer = λ length t. (0, multi_string ((b'A' ∷ []) ∷ (b'B' ∷ b'C' ∷ []) ∷ []) 2);
}

abbrev wanting : Platform
wanting = record plugged { readiness_requirements = "usb" ∷ []; timeout = 1 }

abbrev pub seen : Status
seen = record {
  usb = true;
  ccid_interface = false;
  hid_interface = false;
  webusb_interface = false;
  hidraw = true;
  pcsc_checked = false;
  pcsc_readers = [];
  pcsc_all_readers = [];
  pcsc = true;
}

wait_ready-meets_example :
    (meets wanting.readiness_requirements seen ≡ true)
    × ((wait_ready ⦃host = device⦄ wanting []).1 ≡ wanting)
    × (u : History) × (u' : History) × (probe_status ⦃host = device⦄ wanting u
        ≡ (ok seen, wanting, u'))
unfolding wait_ready ◌>>=◌ gets poll_for Calls.monotonic elapsed probe_status interface_classes
    Calls.glob catch Calls.read_text pure pcsc_readers Calls.find_pcsclite Calls.exists hidraw_ready
    Calls.resolve requirement_status lower sorted strip
wait_ready-meets_example = wait_ready-meets ⦃host = device⦄ wanting [] seen refl

attach-Holds_example : Holds [] (attach ⦃host = device⦄ [] wanting []).1
unfolding attach ◌>>=◌ catch pcsc_readers Calls.find_pcsclite pure modify run_command Calls.run
    raise_if find_usbip_port gets poll_for Calls.monotonic elapsed matching_usb_devices Calls.exists
    Calls.glob Calls.read_text Calls.resolve lower strip join parent parse_ports has_part
attach-Holds_example = attach-Holds ⦃host = device⦄ [] wanting [] refl

read_readers-multi_string_example :
    (read_readers ⦃host = device⦄ 7 plugged []).0
    ≡ ok (map device.decode ((b'A' ∷ []) ∷ (b'B' ∷ b'C' ∷ []) ∷ []))
read_readers-multi_string_example =
    read_readers-multi_string ⦃host = device⦄ ((b'A' ∷ []) ∷ (b'B' ∷ b'C' ∷ []) ∷ []) 2 7 0 plugged
      [] ((refl, (refl, tt)), ((refl, (refl, (refl, tt))), tt)) refl refl
