-- ===== src/Control/Apart.antt =====
-- What leaves the dict of the state file alone.
use canokey_usbip.Prelude.{ℕ, ℤ, pos, negsuc, Bool, Option, List, String}
use canokey_usbip.Host.{FilePath, Event, Env, Exec, JsonDict}
use canokey_usbip.Host.Calls
use canokey_usbip.Host.Within.{Within, Within-zoom, Within-mono}
use canokey_usbip.Host.Plain.{free, plain_rules, Anything, IsPlain}
use canokey_usbip.Command.{run_command}
use canokey_usbip.Platform.{Platform}
use canokey_usbip.Platform.Gentle.{Gentle, run_command-Gentle}
use canokey_usbip.Platform.Reading.{collect_debug-Gentle}
use canokey_usbip.Control.Command.{Command}
use canokey_usbip.Control.State.{Session}
use canokey_usbip.Control.Start.{with_platform, check_started}
use canokey_usbip.Control.Main.{signal_touch, act}
use canokey_usbip.Control.Reading.{required-Within, int_of-Within, exited-Within}

abbrev Any : Event → Type 0
Any e = Unit {0}

-- What leaves the file's dict alone, as far as `F` goes.
abbrev pub Apart : (JsonDict → Type 0) → {A : Type 0} → Exec Session A → Type 0
Apart F = Within (Unit {0}) (λ s. F s.state) Any IsPlain

module _ (F : JsonDict → Type 0) where
  module _ ⦃host : Env⦄ where
    pub with_platform-Apart :
        {A : Type 0} (m : Exec Platform A)
        → Gentle (Unit {0}) Anything m
        → Apart F (with_platform m)
    with_platform-Apart m w = Within-zoom _ _ m w (λ s h. tt) (λ q s h j. h) (λ e p. tt)

    run_command-Apart :
        (argv : List String) (cwd : Option FilePath) (timeout : Option ℕ) (log check : Bool)
        → Apart F (run_command argv cwd timeout log check)
    run_command-Apart argv cwd timeout log check =
        Within-mono _ (λ e p. tt) (run_command-Gentle argv cwd timeout log check)

    pub check_started-Apart : (pid : ℕ) (u : Unit {0}) → Apart F (check_started pid u)
    unfolding check_started Calls.poll
    check_started-Apart pid u = search (plain_rules, exited-Within, run_command-Apart) depth 20

    signal_touch-Apart : (pid : ℤ) → Apart F (signal_touch pid)
    unfolding signal_touch Calls.kill
    signal_touch-Apart (pos n) = search plain_rules
    signal_touch-Apart (negsuc n) = search plain_rules

module _ ⦃host : Env⦄ where
  -- The commands that do not write the file leave its dict alone.
  pub touch-Apart : (F : JsonDict → Type 0) → Apart F (act Command.touch)
  unfolding act
  touch-Apart F =
      search (plain_rules, required-Within, int_of-Within, signal_touch-Apart F) depth 20

  pub collect_debug-Apart : (F : JsonDict → Type 0) → Apart F (act Command.collect_debug)
  unfolding act
  collect_debug-Apart F = with_platform-Apart F _ (collect_debug-Gentle free)
