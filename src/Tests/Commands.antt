-- ===== src/Tests/Commands.antt =====
-- Commands of compat/runner/control.py on concrete sessions.
use canokey_usbip.Prelude.{◌≡◌, refl, false, some, List, [], ◌∷◌, String, pos, contains, lookup}
use canokey_usbip.Host.{
  Env, History, Json, OsError, failed, ok, ◌>>=◌, gets, catch, pure, modify, raise_if, zoom,
  finally,
}
use canokey_usbip.Host.Calls
use canokey_usbip.Host.Polling.{poll_for}
use canokey_usbip.Command.{run_command}
use canokey_usbip.Host.Reaches.{Ends}
use canokey_usbip.Platform.{pcsc_readers, detach}
use canokey_usbip.Harness.{state_of}
use canokey_usbip.Control.{
  Session, act, stop_pid, pid_of, recorded_platform, wait_reader_removed, bring_up_or_undo,
}
use canokey_usbip.Control.Command.{Command}
use canokey_usbip.Control.Quiet.{CanSignal}
use canokey_usbip.Control.Recorded.{Transition}
use canokey_usbip.Control.Resume.{resumed, recorded_platform-state_of}
use canokey_usbip.Control.Reached.{Reached}
use canokey_usbip.Control.Removal.{wait_reader_removed-lists}
use canokey_usbip.Control.Transitions.{act-Transition}
use canokey_usbip.Control.Undo.{NamesPort, NamesNothing, bring_up_or_undo-Ends}
use canokey_usbip.Tests.Machine.{busy, elapsed}
use canokey_usbip.Tests.Runs.{harness}
use canokey_usbip.Tests.Devices.{plugged}

-- The server has ended by itself.
abbrev ended_server : Env
ended_server = record busy { killpg = λ pid sig t. failed OsError.process_lookup "" }

abbrev session : Session
session = record {
  state_path = "/tmp/state.json";
  state =
      ("pid", Json.num (pos 7)) ∷ ("usb_port", Json.str "2") ∷ ("timeout", Json.num (pos 1)) ∷ [];
  platform = plugged;
}

busy-CanSignal : CanSignal busy 7
busy-CanSignal = record { terminated = λ t. tt; killed = λ t. tt; probed = λ t. tt }

act-Transition_example :
    let (result, s', t') = act ⦃host = ended_server⦄ Command.stop session [] in
    Transition ⦃host = ended_server⦄ session [] s' t' Command.stop
unfolding act ◌>>=◌ zoom detach gets Calls.which pure finally run_command Calls.run raise_if modify
    stop_pid catch Calls.killpg Calls.write_text
act-Transition_example = act-Transition ⦃host = ended_server⦄ Command.stop session [] refl

bring_up_or_undo-Ends_example :
    Ends NamesPort NamesNothing (bring_up_or_undo ⦃host = busy⦄ 7 [] session [])
bring_up_or_undo-Ends_example = bring_up_or_undo-Ends ⦃host = busy⦄ 7 [] session [] busy-CanSignal

recorded_platform-state_of_example :
    (recorded_platform (state_of harness 7 (some "2")) session []
      ≡ (ok (resumed harness (some "2")), session, []))
    × (pid_of (lookup "pid" (state_of harness 7 (some "2"))) session [] ≡ (ok (pos 7), session, []))
recorded_platform-state_of_example = recorded_platform-state_of harness 7 (some "2") session []

wait_reader_removed-lists_example :
    (readers : List String) × (u : History) × (s' : Session) × (u' : History) × (pcsc_readers
        ⦃host = busy⦄ session u
      ≡ (ok (some readers), s', u'))
    × (contains readers "CanoKey" ≡ false)
unfolding wait_reader_removed ◌>>=◌ poll_for Calls.monotonic elapsed pcsc_readers
    Calls.find_pcsclite Calls.load_pcsclite Calls.establish raise_if finally Calls.list_length
    Calls.release
wait_reader_removed-lists_example =
    wait_reader_removed-lists ⦃host = busy⦄ "CanoKey" session [] refl

-- The file that the harness writes, and the dict after `stop`.
abbrev written : Session
written = record {
  state_path = "/tmp/state.json";
  state = state_of harness 7 (some "2");
  platform = plugged;
}
