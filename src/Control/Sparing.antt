-- ===== src/Control/Sparing.antt =====
-- The commands of compat/runner/control.py remove nothing, and keep what their writes to the state file
-- keep.
use canokey_usbip.Prelude.{
  update, [], ◌∷◌, ℕ, ℤ, pos, negsuc, Bool, Option, none, some, List, String,
}
use canokey_usbip.Host.{FilePath, Event, Env, Exc, Exec, Json, JsonDict}
use canokey_usbip.Host.Calls
use canokey_usbip.Host.Within.{Within, Within-zoom, Within-mono}
use canokey_usbip.Host.Plain.{IsPlain, IsHarmless, Anything, Bounded, plain_rules}
use canokey_usbip.Host.Polling.{Waited, found, expired}
use canokey_usbip.Host.Polling.Stays.{poll_for-Within}
use canokey_usbip.Platform.{Platform}
use canokey_usbip.Platform.Gentle.{Gentle, run_command-Gentle, pcsc_readers-Gentle}
use canokey_usbip.Platform.Reading.{
  prepare_host-Gentle, matching_usb_devices-Gentle, wait_ready-Gentle, collect_debug-Gentle,
}
use canokey_usbip.Platform.Harmless.{attach-Gentle, detach-Gentle}
use canokey_usbip.Control.Command.{Command}
use canokey_usbip.Control.State.{Session, load_from, save_state}
use canokey_usbip.Control.Stop.{check_removed, removed_or_timeout, wait_reader_removed, stop_pid}
use canokey_usbip.Control.Start.{
  port_json, stopped_entries, with_platform, check_started, attach_device, bring_up, detach_quietly,
  undo, bring_up_or_undo, start,
}
use canokey_usbip.Control.Main.{stop_device, await_removal, signal_touch, act}
use canokey_usbip.Control.Reading.{
  required-Within, text_of-Within, int_of-Within, platform_of-Within, pid_of-Within, exited-Within,
  started_or_timeout-Within,
}
use canokey_usbip.Control.Stopping.{SignalsOnly, stop_pid-Only}

-- Nothing is removed.
abbrev pub RemovesNothing : Event → Type 0
RemovesNothing (Event.rmtree p) = ⊥
RemovesNothing _ = Unit

harmless-RemovesNothing : (e : Event) → IsHarmless e → RemovesNothing e
harmless-RemovesNothing (Event.rmtree p) h = absurd h
harmless-RemovesNothing _ h = tt

signals_remove_nothing : (n : ℕ) (e : Event) → SignalsOnly n e → RemovesNothing e
signals_remove_nothing n (Event.rmtree p) h = absurd h
signals_remove_nothing n _ h = tt

abbrev pub Sparing : Type 0 → {S A : Type 0} → (S → Type 0) → Exec S A → Type 0
Sparing D I = Within D I RemovesNothing IsPlain

-- What the commands write to the state file keeps `F`.
pub record Writes (F : JsonDict → Type 0) : Type 0 where
  pub stopped : (d : JsonDict) → F d → F (update d stopped_entries)
  pub started :
      (pid : ℕ) (d : JsonDict)
      → F d
      → F (update d (("pid", Json.num (pos pid)) ∷ ("usb_port", Json.null) ∷ []))
  pub attached :
      (port : Option String) (d : JsonDict) → F d → F (update d (("usb_port", port_json port) ∷ []))

pub any_write : Writes Anything
any_write = record { stopped = λ d h. tt; started = λ pid d h. tt; attached = λ port d h. tt }

module _ ⦃host : Env⦄ {D : Type 0} (c : Bounded D host) {S : Type 0} {I : S → Type 0} where
  harmless-Sparing : {A : Type 0} (m : Exec S A) → Gentle D I m → Sparing D I m
  harmless-Sparing m w = Within-mono m harmless-RemovesNothing w

  pub load_from-Sparing : (o : Option FilePath) → Sparing D {S = S} I (load_from o)
  unfolding load_from Calls.read_json
  load_from-Sparing none = search plain_rules
  load_from-Sparing (some p) = search plain_rules depth 10

  stop_pid-Sparing : (pid : ℤ) → Sparing D {S = S} I (stop_pid pid)
  unfolding stop_pid
  stop_pid-Sparing (pos n) = Within-mono _ (signals_remove_nothing n) (stop_pid-Only c I n)
  stop_pid-Sparing (negsuc n) = search plain_rules

  check_removed-Sparing : (r : String) (u : Unit {0}) → Sparing D {S = S} I (check_removed r u)
  unfolding check_removed
  check_removed-Sparing r u = search (plain_rules, harmless-Sparing, pcsc_readers-Gentle) depth 10

  removed_or_timeout-Sparing :
      (r : String) (w : Waited (Unit {0}) (Unit {0})) → Sparing D {S = S} I (removed_or_timeout r w)
  unfolding removed_or_timeout
  removed_or_timeout-Sparing r (found u) = search plain_rules
  removed_or_timeout-Sparing r (expired u) = search plain_rules

  wait_reader_removed-Sparing : (r : String) → Sparing D {S = S} I (wait_reader_removed r)
  unfolding wait_reader_removed
  wait_reader_removed-Sparing r =
      search (plain_rules, poll_for-Within, check_removed-Sparing, removed_or_timeout-Sparing) depth
        10

module _ ⦃host : Env⦄ {D : Type 0} (c : Bounded D host) {F : JsonDict → Type 0}
    (writes : Writes F) where
  abbrev Spares : {A : Type 0} → Exec Session A → Type 0
  Spares = Sparing D (λ s. F s.state)

  pub with_platform-Sparing :
      {A : Type 0} (m : Exec Platform A) → Gentle D Anything m → Spares (with_platform m)
  with_platform-Sparing m w = Within-zoom _ _ m w (λ s h. tt) (λ q s h j. h) harmless-RemovesNothing

  pub save_state-Sparing :
      (entries : JsonDict)
      → ((d : JsonDict) → F d → F (update d entries))
      → Spares (save_state entries)
  unfolding save_state Calls.write_text
  save_state-Sparing entries k = search (plain_rules, k) depth 10

  check_started-Sparing : (pid : ℕ) (u : Unit {0}) → Spares (check_started pid u)
  unfolding check_started Calls.poll
  check_started-Sparing pid u =
      search (plain_rules, exited-Within, harmless-Sparing, run_command-Gentle) depth 20

  attach_device-Sparing : (before : List FilePath) → Spares (attach_device before)
  unfolding attach_device
  attach_device-Sparing before =
      search
        (
          plain_rules, with_platform-Sparing, attach-Gentle, wait_ready-Gentle, save_state-Sparing,
          writes.attached,
        )
        depth 20

  pub bring_up-Sparing : (pid : ℕ) (before : List FilePath) → Spares (bring_up pid before)
  unfolding bring_up
  bring_up-Sparing pid before =
      search
        (
          plain_rules, required-Within, int_of-Within, poll_for-Within, check_started-Sparing,
          started_or_timeout-Within, attach_device-Sparing,
        )
        depth 30

  detach_quietly-Sparing : (owns : Bool) → Spares (detach_quietly owns)
  unfolding detach_quietly
  detach_quietly-Sparing owns = search (plain_rules, with_platform-Sparing, detach-Gentle) depth 20

  pub undo-Sparing : (pid : ℕ) (e : Exc) → IsPlain e → Spares (undo pid e)
  unfolding undo
  undo-Sparing pid e p =
      search
        (
          plain_rules, detach_quietly-Sparing, stop_pid-Sparing, save_state-Sparing, writes.stopped,
          p,
        )
        depth 20

  start-Sparing : Spares start
  unfolding start bring_up_or_undo Calls.open_log Calls.popen
  start-Sparing =
      search
        (
          plain_rules, platform_of-Within, with_platform-Sparing, prepare_host-Gentle,
          matching_usb_devices-Gentle, required-Within, text_of-Within, save_state-Sparing,
          writes.started, bring_up-Sparing, undo-Sparing,
        )
        depth 60

  pub stop_device-Sparing : Spares stop_device
  unfolding stop_device
  stop_device-Sparing =
      search
        (
          plain_rules, with_platform-Sparing, detach-Gentle, pid_of-Within, stop_pid-Sparing,
          save_state-Sparing, writes.stopped,
        )
        depth 20

  pub await_removal-Sparing : (o : Option String) → Spares (await_removal o)
  unfolding await_removal
  await_removal-Sparing none = search plain_rules
  await_removal-Sparing (some r) = search (plain_rules, wait_reader_removed-Sparing)

  signal_touch-Sparing : (pid : ℤ) → Spares (signal_touch pid)
  unfolding signal_touch Calls.kill
  signal_touch-Sparing (pos n) = search plain_rules
  signal_touch-Sparing (negsuc n) = search plain_rules

  pub act-Sparing : (command : Command) → Spares (act command)
  unfolding act
  act-Sparing Command.start = start-Sparing
  act-Sparing Command.stop = stop_device-Sparing
  act-Sparing Command.restart =
      search (plain_rules, stop_device-Sparing, await_removal-Sparing, start-Sparing) depth 20
  act-Sparing Command.attach =
      search
        (plain_rules, with_platform-Sparing, matching_usb_devices-Gentle, attach_device-Sparing)
        depth 20
  act-Sparing Command.detach =
      search
        (
          plain_rules,
          with_platform-Sparing,
          detach-Gentle,
          save_state-Sparing,
          writes.attached none,
        )
        depth 20
  act-Sparing Command.touch =
      search (plain_rules, required-Within, int_of-Within, signal_touch-Sparing) depth 20
  act-Sparing Command.collect_debug = with_platform-Sparing _ (collect_debug-Gentle c)
