-- ===== src/Host/Plain.antt =====
-- The predicates that the runner's methods stay within: exceptions whose exit code, if they carry
-- one, is 1, and calls that only look at the host or run a command to its end.
use mathlib.Core.Logic.{inl}
use canokey_usbip.Prelude.{◌≡◌, ◌⊎◌, refl, String, pos, ◌<◌, arith}
use canokey_usbip.Host.Events.{Event}
use canokey_usbip.Host.Errors.{Exc, phase_error, system_exit, in_phase}
use canokey_usbip.Host.Machine.{
  Env, IsClock, Os, done, failed, Ran, completed, run_failed, timed_out, Loaded, loaded, malformed,
  unreadable,
}
use canokey_usbip.Host.Calls.{of_os, of_ran, of_loaded}
use canokey_usbip.Host.Within.{Raises, within_rules}

-- A PhaseError carries exit code 1, and nothing asks the interpreter to exit.
abbrev pub IsPlain : Exc → Type 0
IsPlain (phase_error phase why code) = code ≡ pos 1
IsPlain (system_exit code why) = ⊥
IsPlain _ = Unit

-- No process is started, signalled or reaped, nothing is removed or copied.
abbrev pub IsHarmless : Event → Type 0
IsHarmless (Event.popen argv cwd added) = ⊥
IsHarmless (Event.wait pid seconds) = ⊥
IsHarmless (Event.wait_exit pid) = ⊥
IsHarmless (Event.killpg pid sig) = ⊥
IsHarmless (Event.kill pid sig) = ⊥
IsHarmless (Event.rmtree p) = ⊥
IsHarmless (Event.copytree p q ignore) = ⊥
IsHarmless _ = Unit

-- Either runs may diverge, or the clock ends their loops.
abbrev pub Bounded : Type 0 → Env → Type 0
Bounded D host = D ⊎ IsClock host

-- Where it does not matter.
pub free : ⦃host : Env⦄ → Bounded (Unit {0}) host
free = inl tt

abbrev pub Anything : {S : Type 0} → S → Type 0
Anything s = Unit

pub Raises-of_os : (D : Type 0) {A : Type 0} (x : Os A) → Raises D IsPlain (of_os x)
Raises-of_os D (done a) = tt
Raises-of_os D (failed k m) = tt

pub Raises-of_ran : (D : Type 0) (x : Ran) → Raises D IsPlain (of_ran x)
Raises-of_ran D (completed c) = tt
Raises-of_ran D (run_failed k m) = tt
Raises-of_ran D (timed_out m) = tt

pub Raises-of_loaded : (D : Type 0) {A : Type 0} (x : Loaded A) → Raises D IsPlain (of_loaded x)
Raises-of_loaded D (loaded d) = tt
Raises-of_loaded D (malformed m) = tt
Raises-of_loaded D (unreadable k m) = tt

pub IsPlain-in_phase : (phase why : String) → IsPlain (in_phase phase why)
unfolding in_phase
IsPlain-in_phase phase why = refl

-- The pauses of the loops.
pub quarter : 0 < 250
quarter = omega arith

pub tenth : 0 < 100
tenth = omega arith

pub ruleset plain_rules = (
  within_rules, Raises-of_os, Raises-of_ran, Raises-of_loaded, IsPlain-in_phase, tt, quarter, tenth,
)
