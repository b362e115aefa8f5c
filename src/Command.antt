-- ===== src/Command.antt =====
-- The helpers of compat/runner/harness.py that run a command: `run_command`, `git_value`,
-- `tool_version`, and `copy_core_tree` with its filter of names.
use canokey_usbip.Prelude.{
  ℕ, String, ◌<>◌, Bool, true, false, not, ◌&&◌, ◌||◌, Option, none, some, List, [], ◌∷◌, is_zero,
  show_int, joined, contains, keep, starts_with, ◌==◌, if◌then◌else◌,
}
use canokey_usbip.Host.{
  FilePath, Env, Completed, Exc, harness_error, os_error, timeout_expired, is_harness_error, Exec,
  pure, raise, raise_if, catch, ◌>>=◌, ◌>>◌,
}
use canokey_usbip.Host.Calls.{run, copytree}
use canokey_usbip.Text.Strip.{strip, first_line}

-- a or b, for texts
abbrev pub or_text : String → String → String
or_text a b = if a == "" then b else a

unfoldable pub command_failure : List String → Bool → Completed → Exc
command_failure argv log c = harness_error (
    "command failed ("
    <> (show_int c.returncode
        <> ("): "
            <> (joined " " argv
                <> ("\n" <> (if log then "" else strip (or_text c.stdout c.stderr)))))))

module _ ⦃host : Env⦄ {S : Type 0} where
  unfoldable pub run_command :
      List String → Option FilePath → Option ℕ → Bool → Bool → Exec S Completed
  run_command argv cwd timeout log check = do
    result ← run argv cwd timeout log
    raise_if (check && not (is_zero result.returncode)) (command_failure argv log result)
    pure result

  -- except (HarnessError, OSError): return default
  unfoldable pub git_default : String → Exc → Exec S String
  git_default default (os_error k m) = pure default
  git_default default e = if is_harness_error e then pure default else raise e

  unfoldable pub git_value : FilePath → List String → String → Exec S String
  git_value path args default =
      catch
        (do
          result ← run_command ("git" ∷ "-C" ∷ path ∷ args) none none false true
          pure (strip result.stdout))
        (git_default default)

  -- except (OSError, TimeoutExpired): return "unavailable"
  unfoldable pub tool_default : Exc → Exec S String
  tool_default (os_error k m) = pure "unavailable"
  tool_default (timeout_expired m) = pure "unavailable"
  tool_default e = raise e

  unfoldable pub tool_version : List String → Exec S String
  unfolding tool_default
  tool_version argv =
      catch
        (do
          result ← run_command argv none (some 5) false false
          let value = or_text result.stdout result.stderr
          pure (if value == "" then "unknown" else strip (first_line value)))
        tool_default

-- `ignore`: what copytree leaves out of each directory.
unfoldable pub ignored : List String → List String
ignored names =
    keep
      (λ name.
        contains (".git" ∷ "build" ∷ "cmake-build-debug" ∷ "cmake-build-release" ∷ []) name
        || starts_with name "cmake-build-")
      names

module _ ⦃host : Env⦄ {S : Type 0} where
  unfoldable pub copy_core_tree : FilePath → FilePath → Exec S (Unit {0})
  unfolding ignored
  copy_core_tree source destination = copytree source destination ignored
