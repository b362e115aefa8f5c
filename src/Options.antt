-- ===== src/Options.antt =====
-- compat/runner/main.py, and the data classes of compat/runner/harness.py. argparse itself is not
-- modelled: `Arguments` is the namespace that it returns, with the defaults of the declarations.
pub mod Parse
use canokey_usbip.Prelude.{
  ℕ, String, Bool, false, not, ◌&&◌, Option, none, some, List, ℤ, pos, is_positive, pos_part,
  from_keys, ◌==◌,
}
use canokey_usbip.Host.{FilePath, join, system_exit, Env, Exec, pure, raise_if, ◌>>=◌, ◌>>◌}
use canokey_usbip.Host.Calls.{resolve, utc_now}

-- The result of parser.parse_args.
pub record Arguments : Type 0 where
  pub core_ref : Option String
  pub core_dir : Option FilePath
  pub test_command : Option String
  pub readiness_requirements : List String
  pub storage : Option FilePath
  pub timeout : ℤ
  pub keep_on_failure : Bool
  pub touch : Bool
  pub output_dir : Option FilePath
  pub build_only : Bool
  pub build_dir : Option FilePath

pub record Options : Type 0 where
  pub repo_dir : FilePath
  pub caller_dir : FilePath
  pub core_ref : Option String
  pub core_dir : Option FilePath
  pub test_command : Option String
  pub storage : Option FilePath
  -- in seconds
  pub timeout : ℕ
  pub keep_on_failure : Bool
  pub output_dir : FilePath
  pub build_only : Bool
  pub build_dir : Option FilePath
  pub touch : Bool
  pub readiness_requirements : List String

pub record CoreSource : Type 0 where
  pub path : FilePath
  pub sha : String
  pub ref : String
  pub dirty : Bool
  pub patches : List String
  pub usb_vid : String
  pub usb_pid : String
  pub firmware_version : Option String

-- A text that Python reads as true: present and not empty.
abbrev pub is_given : Option String → Bool
is_given none = false
is_given (some s) = not (s == "")

module _ ⦃host : Env⦄ {S : Type 0} where
  -- path.resolve() if path else None
  unfoldable pub resolve_given : Option FilePath → Exec S (Option FilePath)
  resolve_given none = pure none
  resolve_given (some p) = do p' ← resolve p; pure (some p')

  -- args.output_dir, or a fresh directory named for the time
  unfoldable pub choose_output : FilePath → Option FilePath → Exec S FilePath
  choose_output caller_dir none = do
    stamp ← utc_now
    pure (join (join caller_dir "artifacts") stamp)
  choose_output caller_dir (some p) = pure p

  -- `parse_args`, from the namespace on. The repository's directory is that of the program file.
  unfoldable pub parse_args : FilePath → Arguments → Exec S Options
  unfolding resolve_given choose_output
  parse_args repo_dir args = do
    raise_if (not (is_positive args.timeout))
        (system_exit (pos 2) "--timeout must be greater than zero")
    raise_if (not args.build_only && not (is_given args.test_command))
        (system_exit (pos 2) "--test-command is required")
    caller_dir ← resolve "."
    output_dir ← choose_output caller_dir args.output_dir
    core_dir ← resolve_given args.core_dir
    storage ← resolve_given args.storage
    output_dir' ← resolve output_dir
    pure (record {
      repo_dir = repo_dir;
      caller_dir = caller_dir;
      core_ref = args.core_ref;
      core_dir = core_dir;
      test_command = args.test_command;
      storage = storage;
      timeout = pos_part args.timeout;
      keep_on_failure = args.keep_on_failure;
      output_dir = output_dir';
      build_only = args.build_only;
      build_dir = args.build_dir;
      touch = args.touch;
      readiness_requirements = from_keys args.readiness_requirements;
    })
