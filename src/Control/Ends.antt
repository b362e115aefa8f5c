-- ===== src/Control/Ends.antt =====
-- Every command of compat/runner/control.py ends, and none removes anything.
use canokey_usbip.Prelude.{◌≢◌, inr}
use canokey_usbip.Host.{History, Env, IsClock, Exc, zoom, diverged}
use canokey_usbip.Host.Calls
use canokey_usbip.Host.Emits.{Extends}
use canokey_usbip.Host.Within.{Within-zoom, ended}
use canokey_usbip.Host.Plain.{IsPlain, Anything, Bounded, plain_rules}
use canokey_usbip.Control.Command.{Command}
use canokey_usbip.Control.State.{Session, load_state}
use canokey_usbip.Control.Main.{act, main, report_error, control}
use canokey_usbip.Control.Reading.{recorded_platform-Within}
use canokey_usbip.Control.Sparing.{
  RemovesNothing, Sparing, any_write, load_from-Sparing, act-Sparing,
}

module _ ⦃host : Env⦄ {D : Type 0} (c : Bounded D host) where
  acting-Sparing :
      (session : Session) (command : Command)
      → Sparing D {S = Unit {0}} Anything (zoom (λ u. session) (λ s u. u) (act command))
  acting-Sparing session command =
      Within-zoom _ _ (act command) (act-Sparing c {F = Anything} any_write command) (λ s h. tt)
        (λ q s h j. tt) (λ e p. p)

  main-Sparing : (command : Command) → Sparing D Anything (main command)
  unfolding main load_state
  main-Sparing command =
      search (plain_rules, load_from-Sparing c, recorded_platform-Within, acting-Sparing) depth 20

  report_error-Sparing : (e : Exc) → IsPlain e → Sparing D Anything (report_error e)
  unfolding report_error Calls.print_error
  report_error-Sparing (Exc.runtime_error m) p = search plain_rules depth 10
  report_error-Sparing (Exc.os_error k m) p = search plain_rules depth 10
  report_error-Sparing (Exc.timeout_expired m) p = search plain_rules depth 10
  report_error-Sparing e p = search (plain_rules, p) depth 10

  control-Sparing : (command : Command) → Sparing D Anything (control command)
  unfolding control
  control-Sparing command = search (plain_rules, main-Sparing, report_error-Sparing) depth 10

-- With a clock that does what time.monotonic and time.sleep document, and programs and calls that
-- return, every command of compat/runner/control.py ends, and none removes a file or a directory.
pub control-ends :
    ⦃host : Env⦄
    → IsClock host
    → (command : Command) (t : History)
    → let (r, u, t') = control command tt t in (r ≢ diverged) × Extends RemovesNothing t t'
control-ends clock command t =
    let w = control-Sparing {D = ⊥} (inr clock) command in
    (ended Anything (control command) w tt t tt, w.events tt t tt)
