-- ===== src/Program.antt =====
-- compat/runner/main.py as a program: Harness(parse_args(argv)).execute().
pub mod Refusal
pub mod Outcome
use canokey_usbip.Prelude.{String, ◌<>◌, Option, ℤ}
use canokey_usbip.Host.{FilePath, Env, Exec, pure, zoom, ◌>>=◌}
use canokey_usbip.Host.Calls.{resolve, utc_now}
use canokey_usbip.Options.{Arguments, Options, resolve_given, parse_args}
use canokey_usbip.Harness.{Harness, new_harness, execute_run, started}

module _ ⦃host : Env⦄ where
  -- `Harness.__init__`: the run id is a time stamp and the hexadecimal digits of a fresh UUID, which are
  -- an argument, as is the directory of temporary files.
  unfoldable pub init_harness : Options → String → FilePath → Exec (Unit {0}) Harness
  init_harness options digits temp = do
    stamp ← utc_now
    output_dir ← resolve options.output_dir
    storage ← resolve_given options.storage
    let resolved : Options = record options { output_dir = output_dir; storage = storage }
    pure (record (new_harness resolved (stamp <> ("-" <> digits)) temp) { options = options })

  -- The exit code is what `execute` returns.
  unfoldable pub run_program : FilePath → Arguments → String → FilePath → Exec (Unit {0}) ℤ
  unfolding init_harness
  run_program repo_dir args digits temp = do
    options ← parse_args repo_dir args
    harness ← init_harness options digits temp
    zoom (λ u. started temp harness) (λ r u. u) (execute_run temp)
