-- ===== src/Harness/Build.antt =====
-- `build`: the two cmake commands, and the binary that they must leave.
use mathlib.Core.Option.{get_or}
use canokey_usbip.Prelude.{◌<>◌, true, not, Option, none, some, [], ◌∷◌, if◌then◌else◌}
use canokey_usbip.Host.{
  FilePath, join, Env, Exc, assertion_error, is_harness_error, in_phase, Exec, pure, raise,
  raise_if, gets, catch, ◌>>=◌, ◌>>◌,
}
use canokey_usbip.Host.Calls.{is_file, mkdir, open_log, resolve}
use canokey_usbip.Options.{Options, CoreSource, is_given}
use canokey_usbip.Command.{run_command}
use canokey_usbip.Harness.State.{Harness}

-- assert value
unfoldable pub asserted : {S A : Type 0} → Option A → Exec S A
asserted none = raise assertion_error
asserted (some a) = pure a

unfoldable pub build_failed : {A : Type 0} → Exc → Exec Harness A
build_failed e =
    if is_harness_error e
    then raise (in_phase "build" "canokey-usbip build failed; see build.log")
    else raise e

module _ ⦃host : Env⦄ where
  unfoldable pub choose_build_dir : Options → FilePath → Exec Harness FilePath
  choose_build_dir o workspace = elim o.build_dir [
    | some build_dir ↦ resolve build_dir
    | none ↦
        if o.build_only
        then pure (join (join o.caller_dir "build") "compat")
        else pure (join workspace "build")
  ]

  unfoldable pub run_cmake : FilePath → FilePath → CoreSource → Exec Harness (Unit {0})
  run_cmake repo_dir build_dir core = do
    run_command
        ("cmake"
          ∷ "-S"
          ∷ repo_dir
          ∷ "-B"
          ∷ build_dir
          ∷ ("-DCANOKEY_CORE_DIR=" <> core.path)
          ∷ ("-DCANOKEY_CORE_SHA=" <> core.sha)
          ∷ ("-DCANOKEY_FIRMWARE_VERSION=" <> get_or core.firmware_version "")
          ∷ "-DCMAKE_BUILD_TYPE=RelWithDebInfo"
          ∷ "-DCMAKE_POLICY_VERSION_MINIMUM=3.5"
          ∷ [])
        none none true true
    run_command ("cmake" ∷ "--build" ∷ build_dir ∷ "--target" ∷ "canokey-usbip" ∷ "--parallel" ∷ [])
        none none true true
    pure tt

  unfoldable pub build : Exec Harness FilePath
  unfolding asserted build_failed choose_build_dir run_cmake
  build = do
    resolved ← gets (λ h. h.core)
    core ← asserted resolved
    raise_if (not (is_given core.firmware_version))
        (in_phase "resolve-core" ("core " <> (core.sha <> " has no firmware version mapping")))
    options ← gets (λ h. h.options)
    workspace ← gets (λ h. h.workspace)
    output_dir ← gets (λ h. h.output_dir)
    build_dir ← choose_build_dir options workspace
    mkdir build_dir
    open_log (join output_dir "build.log")
    catch (run_cmake options.repo_dir build_dir core) build_failed
    built ← is_file (join build_dir "canokey-usbip")
    raise_if (not built) (
        in_phase "build"
          ("build succeeded but binary is missing: " <> join build_dir "canokey-usbip"))
    pure (join build_dir "canokey-usbip")
