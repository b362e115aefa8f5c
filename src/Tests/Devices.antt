-- ===== src/Tests/Devices.antt =====
-- The device's port and the readers, on the host that works.
use canokey_usbip.Prelude.{show, String, List, arith, false, ◌≡◌, refl, true, none, some, [], ◌∷◌}
use canokey_usbip.Host.{Event}
use canokey_usbip.Platform.{Platform}
use canokey_usbip.Platform.{privileged}
use canokey_usbip.Platform.{pcsc_readers}
use canokey_usbip.Platform.{detach, detach_command, released}
use canokey_usbip.Text.Match.{codes}
use canokey_usbip.Platform.Ports.{parse_ports}
use canokey_usbip.Platform.Ports.Lines.{is_plain, starts_line}
use canokey_usbip.Platform.Ports.Table.{Entry, table_text, first_named, parse_ports-table}
use canokey_usbip.Platform.Gentle.{Gentle}
use canokey_usbip.Host.Plain.{Anything}
use canokey_usbip.Platform.Harmless.{platform_harmless}
use canokey_usbip.Platform.Detach.{latest, detach_known, pcsc_readers-release}
use canokey_usbip.Platform.{prepare_host, matching_usb_devices, attach, wait_ready, collect_debug}
use canokey_usbip.Tests.Machine.{busy}

abbrev pub plugged : Platform
plugged = record {
  output_dir = "/out";
  timeout = 30;
  usb_vid = "20a0";
  usb_pid = "42d4";
  readiness_requirements = [];
  device_path = some "/sys/bus/usb/devices/3-1";
  usb_port = some "2";
  owns_attachment = true;
  pcsc_readers_before = [];
}

detach_known_example :
    ((detach ⦃host = busy⦄ plugged []).1
      ≡ record plugged { owns_attachment = false; usb_port = none; device_path = none })
    × ((detach ⦃host = busy⦄ plugged []).2
        ≡ Event.run ("usbip" ∷ "detach" ∷ "--port" ∷ "2" ∷ []) none (some 20) false
          ∷ Event.which "usbip"
          ∷ [])
detach_known_example = detach_known ⦃host = busy⦄ plugged [] "2" refl refl refl refl

pcsc_readers-release_example : latest (pcsc_readers ⦃host = busy⦄ plugged []).2 ≡ some Event.release
pcsc_readers-release_example = pcsc_readers-release ⦃host = busy⦄ plugged [] refl refl refl

platform_harmless_example :
    Gentle (Unit {0}) Anything (prepare_host ⦃host = busy⦄ {S = Platform})
    × Gentle (Unit {0}) Anything (matching_usb_devices ⦃host = busy⦄)
    × Gentle (Unit {0}) Anything (attach ⦃host = busy⦄ [])
    × Gentle (Unit {0}) Anything (wait_ready ⦃host = busy⦄)
    × Gentle (Unit {0}) Anything (collect_debug ⦃host = busy⦄)
    × Gentle (Unit {0}) Anything (detach ⦃host = busy⦄)
platform_harmless_example = platform_harmless ⦃host = busy⦄ []

abbrev entries : List Entry
entries =
    record { number = 0; body = codes " <Port in Use>\n  other (1234:5678)\n" }
    ∷ record { number = 12; body = codes " <Port in Use>\n  x (20A0:42d4)\n" }
    ∷ []

abbrev printed : String
printed =
    "Imported USB devices\nPort 00: <Port in Use>\n  other (1234:5678)\nPort 12: <Port in Use>\n  x (20A0:42d4)\n"

entries_example : first_named "20a0:42d4" entries ≡ some "12"
unfolding first_named show canokey_usbip.Platform.names_device canokey_usbip.Text.Match.has_part
entries_example = refl

parse_ports-table_example : parse_ports "20a0:42d4" printed ≡ first_named "20a0:42d4" entries
unfolding is_plain starts_line table_text
parse_ports-table_example =
    parse_ports-table "20a0:42d4" printed (codes "Imported USB devices\n") entries refl refl
      ((omega arith, refl, refl), ((omega arith, refl, refl), tt)) refl
