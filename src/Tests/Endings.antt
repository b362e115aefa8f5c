-- ===== src/Tests/Endings.antt =====
-- What ends, on the host that works.
use canokey_usbip.Prelude.{◌≡◌, ◌≢◌, pos, []}
use canokey_usbip.Host.{diverged}
use canokey_usbip.Host.Emits.{Extends}
use canokey_usbip.Platform.{
  prepare_host, matching_usb_devices, attach, wait_ready, collect_debug, detach,
}
use canokey_usbip.Platform.Harmless.{platform-ends}
use canokey_usbip.Harness.{execute_run, started}
use canokey_usbip.Harness.TidyExecute.{execute-ends}
use canokey_usbip.Control.Command.{Command}
use canokey_usbip.Control.{stop_pid, control}
use canokey_usbip.Control.Stopping.{SignalsOnly, stop_pid-SignalsOnly}
use canokey_usbip.Control.Sparing.{RemovesNothing}
use canokey_usbip.Control.Ends.{control-ends}
use canokey_usbip.Tests.Machine.{busy, busy-IsClock}
use canokey_usbip.Tests.Runs.{harness}
use canokey_usbip.Tests.Devices.{plugged}

execute-ends_example :
    (execute_run ⦃host = busy⦄ "/tmp" (started ⦃host = busy⦄ "/tmp" harness) []).0 ≢ diverged
execute-ends_example =
    execute-ends ⦃host = busy⦄ busy-IsClock "/tmp" (started ⦃host = busy⦄ "/tmp" harness) []

platform-ends_example :
    ((prepare_host ⦃host = busy⦄ plugged []).0 ≢ diverged)
    × ((matching_usb_devices ⦃host = busy⦄ plugged []).0 ≢ diverged)
    × ((attach ⦃host = busy⦄ [] plugged []).0 ≢ diverged)
    × ((wait_ready ⦃host = busy⦄ plugged []).0 ≢ diverged)
    × ((collect_debug ⦃host = busy⦄ plugged []).0 ≢ diverged)
    × ((detach ⦃host = busy⦄ plugged []).0 ≢ diverged)
platform-ends_example = platform-ends ⦃host = busy⦄ busy-IsClock [] plugged []

stop_pid-SignalsOnly_example :
    let (r, s', t') = stop_pid ⦃host = busy⦄ (pos 7) plugged [] in
    (r ≢ diverged) × (s' ≡ plugged) × Extends (SignalsOnly 7) [] t'
stop_pid-SignalsOnly_example = stop_pid-SignalsOnly ⦃host = busy⦄ busy-IsClock 7 plugged []

control-ends_example :
    let (r, u, t') = control ⦃host = busy⦄ Command.restart tt [] in
    (r ≢ diverged) × Extends RemovesNothing [] t'
control-ends_example = control-ends ⦃host = busy⦄ busy-IsClock Command.restart []
