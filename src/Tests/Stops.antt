-- ===== src/Tests/Stops.antt =====
-- The whole program, the end of a run and of its server on the host that works, and a header.
use canokey_usbip.Prelude.{arith, ◌≡◌, refl, some, [], ◌∷◌, pos}
use canokey_usbip.Host.{Event, sigterm, Env, Json, loaded, ok, gets, pure, catch, ◌>>=◌}
use canokey_usbip.Host.Calls
use canokey_usbip.Harness.{
  parse_identity, hex4, Harness, Run, cleanup, recorded_pid, stop_recorded, stop_server, reap,
  new_harness,
}
use canokey_usbip.Harness.FirstFailure.{CleanupOutcome, cleanup-CleanupOutcome}
use canokey_usbip.Harness.Reaping.{Reaped, stop_server-Reaped}
use canokey_usbip.Harness.Identity.Printed.{header, parse_identity-header}
use canokey_usbip.Tests.Machine.{busy}
use canokey_usbip.Tests.Runs.{harness}

-- A run whose test command has failed.
abbrev failing : Run
failing = record {
  harness = harness;
  result = pos 3;
  phase = "test";
  failure = some "test command exited with 3";
}

cleanup-CleanupOutcome_example : CleanupOutcome failing (cleanup ⦃host = busy⦄ "/tmp" failing []).1
cleanup-CleanupOutcome_example = cleanup-CleanupOutcome ⦃host = busy⦄ "/tmp" failing []

-- A server runs, and the state file names it.
abbrev serving : Harness
serving = record harness { server = some 7 }

abbrev recording : Env
recording = record busy { read_json = λ p t. loaded (("pid", Json.num (pos 7)) ∷ []) }

stop_server-Reaped_example :
    Reaped ⦃host = recording⦄ 7
      (Event.killpg 7 sigterm ∷ (recorded_pid ⦃host = recording⦄ serving []).2)
      (stop_server ⦃host = recording⦄ serving []).2
unfolding new_harness recorded_pid stop_server stop_recorded reap ◌>>=◌ gets pure catch Calls.exists
    Calls.read_json Calls.killpg Calls.wait
stop_server-Reaped_example = stop_server-Reaped ⦃host = recording⦄ 6 serving [] refl refl refl

parse_identity-header_example :
    parse_identity "usbd_desc.h" (header 8352 17108) harness []
    ≡ (ok (hex4 8352, hex4 17108), harness, [])
parse_identity-header_example =
    parse_identity-header "usbd_desc.h" 8352 17108 harness [] (omega arith) (omega arith)
