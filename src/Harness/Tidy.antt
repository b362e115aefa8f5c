-- ===== src/Harness/Tidy.antt =====
-- The methods of Harness that start, signal and remove nothing: they keep each invariant of its fields,
-- and raise PhaseErrors with exit code 1 only.
use canokey_usbip.Prelude.{ℕ, String, List, [], ◌∷◌, Option, none, some, Bool, if◌then◌else◌}
use canokey_usbip.Host.{join, FilePath, Event, Env, Exec, Exc, os_error, OsError, pure}
use canokey_usbip.Host.Calls
use canokey_usbip.Host.Within.{Within, Within-zoom, Within-bind, Within-if}
use canokey_usbip.Host.Plain.{IsPlain, IsHarmless, Anything, plain_rules}
use canokey_usbip.Command.{
  run_command, command_failure, git_default, git_value, tool_default, tool_version, copy_core_tree,
}
use canokey_usbip.Platform.{Platform}
use canokey_usbip.Options.{Options}
use canokey_usbip.Harness.State.{Harness, on_platform}
use canokey_usbip.Harness.Identity.{
  Number, value, bad_literal, defined, unreadable_header, core_usb_identity,
}
use canokey_usbip.Harness.Core.{
  lock_failed, acquire_lock, has_skip_path, apply_patch, apply_patches, describe_core, fetch_core,
  snapshot_failed, snapshot_core, resolve_from, resolve_core,
}
use canokey_usbip.Harness.Build.{asserted, choose_build_dir, build}

-- No process is started, signalled or reaped, and nothing is removed.
abbrev pub IsCalm : Event → Type 0
IsCalm (Event.popen argv cwd added) = ⊥
IsCalm (Event.wait pid seconds) = ⊥
IsCalm (Event.wait_exit pid) = ⊥
IsCalm (Event.killpg pid sig) = ⊥
IsCalm (Event.kill pid sig) = ⊥
IsCalm (Event.rmtree p) = ⊥
IsCalm _ = Unit

pub IsCalm-of_harmless : (e : Event) → IsHarmless e → IsCalm e
IsCalm-of_harmless (Event.popen argv cwd added) h = absurd h
IsCalm-of_harmless (Event.wait pid seconds) h = absurd h
IsCalm-of_harmless (Event.wait_exit pid) h = absurd h
IsCalm-of_harmless (Event.killpg pid sig) h = absurd h
IsCalm-of_harmless (Event.kill pid sig) h = absurd h
IsCalm-of_harmless (Event.rmtree p) h = absurd h
IsCalm-of_harmless _ h = tt

-- The invariant is kept, the calls are within `P`, and PhaseErrors carry exit code 1.
abbrev pub Tidy :
    Type 0 → (Harness → Type 0) → (Event → Type 0) → {A : Type 0} → Exec Harness A → Type 0
Tidy D I P = Within D I P IsPlain

-- The invariant does not look at the platform.
abbrev pub IgnoresPlatform : (Harness → Type 0) → Type 0
IgnoresPlatform I = (h : Harness) (p : Platform) → I h → I (record h { platform = p })

pub on_platform-Tidy :
    {D A : Type 0} {I : Harness → Type 0} {P : Event → Type 0}
    → IgnoresPlatform I
    → ((e : Event) → IsCalm e → P e)
    → (m : Exec Platform A) → Within D Anything IsHarmless IsPlain m
    → Tidy D I P (on_platform m)
on_platform-Tidy moved calm m w =
    Within-zoom _ _ m w (λ s h. tt) (λ q s h j. moved s q h)
      (λ e p. calm e (IsCalm-of_harmless e p))

module _ ⦃host : Env⦄ {D : Type 0} {I : Harness → Type 0} {P : Event → Type 0}
    (calm : (e : Event) → IsCalm e → P e) where
  pub run_command-Tidy :
      (argv : List String) (cwd : Option FilePath) (timeout : Option ℕ) (log check : Bool)
      → Tidy D I P (run_command argv cwd timeout log check)
  unfolding run_command command_failure Calls.run
  run_command-Tidy argv cwd timeout log check = search plain_rules

  git_default-Tidy : (default : String) (e : Exc) → IsPlain e → Tidy D I P (git_default default e)
  unfolding git_default
  git_default-Tidy default (os_error k m) p = search plain_rules
  git_default-Tidy default e p = search (plain_rules, p)

  pub git_value-Tidy :
      (path : FilePath) (args : List String) (default : String)
      → Tidy D I P (git_value path args default)
  unfolding git_value
  git_value-Tidy path args default =
      search (plain_rules, run_command-Tidy, git_default-Tidy) depth 20

  tool_default-Tidy : (e : Exc) → IsPlain e → Tidy D I P (tool_default e)
  unfolding tool_default
  tool_default-Tidy (os_error k m) p = search plain_rules
  tool_default-Tidy (Exc.timeout_expired m) p = search plain_rules
  tool_default-Tidy e p = search (plain_rules, p)

  pub tool_version-Tidy : (argv : List String) → Tidy D I P (tool_version argv)
  unfolding tool_version
  tool_version-Tidy argv = search (plain_rules, run_command-Tidy, tool_default-Tidy) depth 20

  defined-Tidy : (name : String) (d : FilePath) (n : Option Number) → Tidy D I P (defined name d n)
  unfolding defined
  defined-Tidy name d none = search plain_rules
  defined-Tidy name d (some (value n)) = search plain_rules
  defined-Tidy name d (some bad_literal) = search plain_rules

  unreadable_header-Tidy :
      {A : Type 0} (d : FilePath) (e : Exc) → IsPlain e → Tidy D I P (unreadable_header {A = A} d e)
  unfolding unreadable_header
  unreadable_header-Tidy d (os_error k m) p = search plain_rules
  unreadable_header-Tidy d e p = search (plain_rules, p)

  core_usb_identity-Tidy : (destination : FilePath) → Tidy D I P (core_usb_identity destination)
  unfolding core_usb_identity Calls.is_file Calls.read_text
  core_usb_identity-Tidy destination =
      search (plain_rules, defined-Tidy, unreadable_header-Tidy) depth 40

  lock_failed-Tidy : (e : Exc) → IsPlain e → Tidy D I P (lock_failed e)
  unfolding lock_failed
  lock_failed-Tidy (os_error OsError.blocking_io m) p = search plain_rules
  lock_failed-Tidy (os_error k m) p = search plain_rules
  lock_failed-Tidy e p = search (plain_rules, p)

  pub acquire_lock-Tidy : (temp : FilePath) → Tidy D I P (acquire_lock temp)
  unfolding acquire_lock Calls.open_log Calls.flock
  acquire_lock-Tidy temp = search (plain_rules, lock_failed-Tidy) depth 20

  has_skip_path-Tidy : (d : FilePath) (o : Option FilePath) → Tidy D I P (has_skip_path d o)
  unfolding has_skip_path Calls.exists
  has_skip_path-Tidy d none = search plain_rules
  has_skip_path-Tidy d (some p) = search plain_rules

  apply_patch-Tidy : (dir d : FilePath) (name : String) → Tidy D I P (apply_patch dir d name)
  unfolding apply_patch
  apply_patch-Tidy dir d name = search (plain_rules, run_command-Tidy) depth 20

  apply_patches-Tidy :
      (dir d : FilePath) (names : List String) → Tidy D I P (apply_patches dir d names)
  unfolding apply_patches
  apply_patches-Tidy dir d [] = search plain_rules
  apply_patches-Tidy dir d (n ∷ ns) = Within-bind _ _ (has_skip_path-Tidy d _) λ skip.
      Within-if skip _ _ (apply_patches-Tidy dir d ns) (
        Within-bind _ _ (apply_patch-Tidy dir d n)
          (λ u. search (plain_rules, apply_patches-Tidy dir d ns) depth 20))

  pub describe_core-Tidy :
      (d : FilePath) (sha ref : String) (dirty : Bool) → Tidy D I P (describe_core d sha ref dirty)
  unfolding describe_core Calls.read_mappings
  describe_core-Tidy d sha ref dirty =
      search (plain_rules, apply_patches-Tidy, core_usb_identity-Tidy) depth 40

  pub fetch_core-Tidy : (d : FilePath) (ref : String) → Tidy D I P (fetch_core d ref)
  unfolding fetch_core Calls.read_mappings Calls.mkdir
  fetch_core-Tidy d ref =
      search (plain_rules, run_command-Tidy, git_value-Tidy, describe_core-Tidy) depth 60

  snapshot_failed-Tidy : {A : Type 0} (e : Exc) → IsPlain e → Tidy D I P (snapshot_failed {A = A} e)
  unfolding snapshot_failed
  snapshot_failed-Tidy (os_error k m) p = search plain_rules
  snapshot_failed-Tidy e p = search (plain_rules, p)

  snapshot_core-Tidy :
      (d source : FilePath) (ref : String) → Tidy D I P (snapshot_core d source ref)
  unfolding snapshot_core Calls.exists Calls.is_file Calls.copytree copy_core_tree
  snapshot_core-Tidy d source ref =
      search (plain_rules, git_value-Tidy, snapshot_failed-Tidy, describe_core-Tidy) depth 60

  resolve_from-Tidy : (o : Options) (d : FilePath) → Tidy D I P (resolve_from o d)
  unfolding resolve_from
  resolve_from-Tidy o d =
      Within-if _ _ _ (fetch_core-Tidy d _)
        (elim o.core_dir
          as (λ c. Tidy D I P (elim c [
            | some source ↦ snapshot_core d source "external"
            | none ↦ snapshot_core d (join o.repo_dir "canokey-core") "submodule"
          ])) [ some source ↦ snapshot_core-Tidy d source _ | none ↦ snapshot_core-Tidy d _ _ ])

  pub resolve_core-Tidy : Tidy D I P resolve_core
  unfolding resolve_core
  resolve_core-Tidy = search (plain_rules, resolve_from-Tidy) depth 20

  pub asserted-Tidy : {A : Type 0} (o : Option A) → Tidy D I P (asserted o)
  unfolding asserted
  asserted-Tidy none = search plain_rules
  asserted-Tidy (some a) = search plain_rules

  build_dir-Tidy : (o : Options) (workspace : FilePath) → Tidy D I P (choose_build_dir o workspace)
  unfolding choose_build_dir Calls.resolve
  build_dir-Tidy o workspace =
      elim o.build_dir
        as (λ c. Tidy D I P (elim c [
          | some build_dir ↦ Calls.resolve build_dir
          | none ↦
              if o.build_only
              then pure (join (join o.caller_dir "build") "compat")
              else pure (join workspace "build")
        ])) [ some build_dir ↦ search plain_rules | none ↦ search plain_rules ]

  pub build-Tidy : Tidy D I P build
  unfolding build Calls.mkdir Calls.open_log Calls.is_file
  build-Tidy = search (plain_rules, asserted-Tidy, build_dir-Tidy, run_command-Tidy) depth 60
