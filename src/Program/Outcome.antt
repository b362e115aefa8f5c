-- ===== src/Program/Outcome.antt =====
-- How the program ends, for every command line.
use canokey_usbip.Prelude.{[], fresh, ◌≡◌, String, Bool, true, false, ℤ, pos}
use mathlib.Core.Logic.{◌⊎◌}
use canokey_usbip.Host.{Exc, FilePath, join, History, Env, Result, raised, system_exit}
use canokey_usbip.Host.Calls
use canokey_usbip.Host.Within.{Within, Raises}
use canokey_usbip.Host.Plain.{IsPlain}
use canokey_usbip.Host.Emits.{Extends}
use canokey_usbip.Options.{Options, Arguments}
use canokey_usbip.Harness.{Harness, execute_run, started}
use canokey_usbip.Harness.TidyExecute.{OnlyRemoves}
use canokey_usbip.Program.Refusal.{refusal, IsLook}

abbrev pub workspace_of : FilePath → String → FilePath
workspace_of temp id = join (join temp "canokey-usbip") id

-- Nothing is removed but the workspace of a run, and an exception that ends the program is no SystemExit,
-- and carries exit code 1 if it is a PhaseError.
abbrev pub RunsOnce : FilePath → History → Result ℤ × Unit {0} × History → Type 0
RunsOnce temp t x =
    ((id : String) × Extends (OnlyRemoves (workspace_of temp id)) t x.2)
    × Raises (Unit {0}) IsPlain x.0

-- The options are those of the command line.
abbrev pub Accords : FilePath → Arguments → Options → Type 0
Accords repo_dir args o =
    (o.repo_dir ≡ repo_dir)
    × (pos o.timeout ≡ args.timeout)
    × (o.core_ref ≡ args.core_ref)
    × (o.test_command ≡ args.test_command)
    × (o.keep_on_failure ≡ args.keep_on_failure)
    × (o.build_only ≡ args.build_only)
    × (o.build_dir ≡ args.build_dir)
    × (o.touch ≡ args.touch)
    × (o.readiness_requirements ≡ fresh [] args.readiness_requirements)

-- A harness for the command line, with a workspace in the directory of temporary files.
abbrev pub IsFor : FilePath → Arguments → FilePath → Harness → Type 0
IsFor repo_dir args temp h =
    Accords repo_dir args h.options × (id : String) × (h.workspace ≡ workspace_of temp id)

module _ ⦃host : Env⦄ (repo_dir : FilePath) (args : Arguments) (temp : FilePath) where
  -- A path cannot be resolved, or the program ends as the run of a harness for the command line does.
  abbrev pub IsRun : History → Result ℤ × Unit {0} × History → Type 0
  IsRun t x =
      ((e : Exc) × (x.0 ≡ raised e) × IsPlain e × Extends IsLook t x.2)
      ⊎ ((h : Harness) × (u : History) × Extends IsLook t u
          × IsFor repo_dir args temp h
          × (x.0 ≡ (execute_run temp (started temp h) u).0)
          × (x.2 ≡ (execute_run temp (started temp h) u).2))

  abbrev Completes : History → Result ℤ × Unit {0} × History → Type 0
  Completes t x = IsRun t x × RunsOnce temp t x

  -- By whether the command line is accepted.
  abbrev pub ProgramOutcome : History → Result ℤ × Unit {0} × History → Bool → Type 0
  ProgramOutcome t x false = x ≡ (raised (system_exit (pos 2) (refusal args)), tt, t)
  ProgramOutcome t x true = Completes t x
