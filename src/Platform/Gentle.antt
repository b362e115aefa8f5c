-- ===== src/Platform/Gentle.antt =====
-- Methods that start, signal or remove nothing by themselves: they look at the host and run commands to
-- their end. The lemmas here and in Reading hold for every invariant of the state, so what they are about
-- leaves the state alone.
use canokey_usbip.Prelude.{◌<◌, String, List, Option, Bool, ℕ}
use canokey_usbip.Host.{FilePath, Env, Exec, Exc, os_error}
use canokey_usbip.Host.Calls
use canokey_usbip.Host.Within.{Within}
use canokey_usbip.Host.Plain.{IsPlain, IsHarmless, Bounded, plain_rules}
use canokey_usbip.Host.Polling.{Probe, poll_for}
use canokey_usbip.Host.Polling.Stays.{poll_for-Within}
use canokey_usbip.Command.{run_command, command_failure}
use canokey_usbip.Platform.Usb.{on_os_error}
use canokey_usbip.Platform.Pcsc.{pcsc_readers}

-- The invariant is kept, the calls are harmless, and PhaseErrors carry exit code 1.
abbrev pub Gentle : Type 0 → {S A : Type 0} → (S → Type 0) → Exec S A → Type 0
Gentle D I = Within D I IsHarmless IsPlain

module _ ⦃host : Env⦄ {D S : Type 0} {I : S → Type 0} where
  pub run_command-Gentle :
      (argv : List String) (cwd : Option FilePath) (timeout : Option ℕ) (log check : Bool)
      → Gentle D I (run_command {S = S} argv cwd timeout log check)
  unfolding run_command command_failure Calls.run
  run_command-Gentle argv cwd timeout log check = search plain_rules

  pub pcsc_readers-Gentle : Gentle D I (pcsc_readers {S = S})
  unfolding pcsc_readers Calls.find_pcsclite Calls.load_pcsclite Calls.establish Calls.list_length
      Calls.list_buffer Calls.release
  pcsc_readers-Gentle = search plain_rules depth 30

pub poll_for-Gentle :
    ⦃host : Env⦄ {D S B A : Type 0} {I : S → Type 0} (probe : B → Exec S (Probe B A))
    (pause limit : ℕ) (b : B)
    → Bounded D host
    → 0 < pause
    → ((b : B) → Gentle D I (probe b))
    → Gentle D I (poll_for limit pause b probe)
poll_for-Gentle probe pause limit b c h gentle =
    poll_for-Within probe pause tt tt gentle c h limit b

pub on_os_error-Gentle :
    {D S A : Type 0} {I : S → Type 0} (a : A) (e : Exc)
    → IsPlain e
    → Gentle D I (on_os_error {S = S} a e)
on_os_error-Gentle a (os_error k m) p = search plain_rules
on_os_error-Gentle a e p = search (plain_rules, p)
