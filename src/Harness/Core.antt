-- ===== src/Harness/Core.antt =====
-- `acquire_lock`, `apply_core_compatibility`, `firmware_version_for_sha` and `resolve_core`: the
-- source tree that a run builds.
pub mod Resolved
use mathlib.Core.Option.{get_or}
use canokey_usbip.Prelude.{
  String, ◌<>◌, Bool, true, false, not, Option, none, some, List, [], ◌∷◌, map, lookup, ◌==◌,
  if◌then◌else◌,
}
use canokey_usbip.Host.{
  FilePath, join, Env, Exc, os_error, blocking_io, is_harness_error, in_phase, Exec, pure, raise,
  raise_if, gets, catch, ◌>>=◌, ◌>>◌,
}
use canokey_usbip.Host.Calls.{flock, open_log, exists, is_file, mkdir, read_mappings}
use canokey_usbip.Options.{Options, CoreSource, is_given}
use canokey_usbip.Command.{run_command, git_value, copy_core_tree}
use canokey_usbip.Catalog
use canokey_usbip.Catalog.{Mapping}
use canokey_usbip.Harness.State.{Harness}
use canokey_usbip.Harness.Identity.{core_usb_identity}

abbrev pub core_url : String
core_url = "https://github.com/canokeys/canokey-core.git"

-- CORE_COMPAT_PATCHES
abbrev pub core_compat_patches : List (String × List String)
core_compat_patches =
    ("5f1e95f8341856d994abb4566995e2379cc0612d", "core-1.3-legacy-device-sim.patch" ∷ [])
    ∷ ("e558d5cc6169acca1508238f7b584b8e00f8786d", "core-3.1.0-fabrication.patch" ∷ [])
    ∷ ("cba7ea34c893eb6405620e9f2b562de0c441b1d6", "core-3.1.0-fabrication.patch" ∷ [])
    ∷ ("a349b268e12953dd85169e9649091c4f91ce7c68", "core-3.1.0-fabrication.patch" ∷ [])
    ∷ []

-- CORE_COMPAT_PATCH_SKIP_IF_PRESENT
abbrev pub skip_if_present : List (String × FilePath)
skip_if_present = ("core-1.3-legacy-device-sim.patch", "virt-card/device-sim.c") ∷ []

unfoldable pub lock_failed : Exc → Exec Harness (Unit {0})
lock_failed (os_error blocking_io m) =
    raise (in_phase "lock" "another canokey-usbip environment is active on this runner")
lock_failed e = raise e

module _ ⦃host : Env⦄ (temp : FilePath) where
  -- The lock file stays open, and locked, until the process ends.
  unfoldable pub acquire_lock : Exec Harness (Unit {0})
  unfolding lock_failed
  acquire_lock = do
    open_log (join temp "canokey-usbip.lock")
    catch (flock (join temp "canokey-usbip.lock")) lock_failed

unfoldable pub patch_failed : {A : Type 0} → String → Exc → Exec Harness A
patch_failed patch_name e =
    if is_harness_error e
    then raise (
        in_phase "resolve-core" ("failed to apply canokey-core compatibility patch " <> patch_name))
    else raise e

abbrev pub mapping_of : String × String → Mapping
mapping_of (id, commit) = record { id = id; core_commit = commit }

module _ ⦃host : Env⦄ where
  -- skip_path is not None and (destination / skip_path).exists()
  unfoldable pub has_skip_path : FilePath → Option FilePath → Exec Harness Bool
  has_skip_path destination none = pure false
  has_skip_path destination (some skip_path) = exists (join destination skip_path)

  unfoldable pub apply_patch : FilePath → FilePath → String → Exec Harness (Unit {0})
  unfolding patch_failed
  apply_patch patch_dir destination patch_name =
      catch
        (do
          run_command ("git" ∷ "apply" ∷ "--whitespace=nowarn" ∷ join patch_dir patch_name ∷ [])
              (some destination) none false true
          pure tt)
        (patch_failed patch_name)

  unfoldable pub apply_patches : FilePath → FilePath → List String → Exec Harness (List String)
  unfolding has_skip_path apply_patch
  apply_patches patch_dir destination [] = pure []
  apply_patches patch_dir destination (p ∷ ps) = do
    skip ← has_skip_path destination (lookup p skip_if_present)
    if skip then apply_patches patch_dir destination ps else do
      apply_patch patch_dir destination p
      applied ← apply_patches patch_dir destination ps
      pure (p ∷ applied)

  unfoldable pub apply_core_compatibility : FilePath → String → Exec Harness (List String)
  unfolding apply_patches
  apply_core_compatibility destination sha = do
    repo_dir ← gets (λ h. h.options.repo_dir)
    apply_patches (join (join repo_dir "compat") "patches") destination
        (get_or (lookup sha core_compat_patches) [])

  unfoldable pub release_mappings : Exec Harness (List Mapping)
  release_mappings = do
    repo_dir ← gets (λ h. h.options.repo_dir)
    entries ← read_mappings (join repo_dir "compat/config/firmwares.yaml")
    pure (map mapping_of entries)

  unfoldable pub firmware_version_for_sha : String → Exec Harness (Option String)
  unfolding release_mappings
  firmware_version_for_sha sha = do
    mappings ← release_mappings
    pure (Catalog.firmware_version_for_sha mappings sha)

  unfoldable pub fetch_failed : {A : Type 0} → String → Exc → Exec Harness A
  fetch_failed ref e =
      if is_harness_error e
      then raise (in_phase "resolve-core" ("invalid or unreachable canokey-core ref: " <> ref))
      else raise e

  abbrev git : List String → Exec Harness (Unit {0})
  git args = do run_command ("git" ∷ args) none none false true; pure tt

  -- What the two ways to a source tree have in common: patches, ids and the version.
  unfoldable pub describe_core : FilePath → String → String → Bool → Exec Harness CoreSource
  unfolding firmware_version_for_sha apply_core_compatibility
  describe_core destination sha ref dirty = do
    patches ← apply_core_compatibility destination sha
    (vid, pid) ← core_usb_identity destination
    version ← firmware_version_for_sha sha
    pure (record {
      path = destination;
      sha = sha;
      ref = ref;
      dirty = dirty;
      patches = patches;
      usb_vid = vid;
      usb_pid = pid;
      firmware_version = version;
    })

  unfoldable pub fetch_core : FilePath → String → Exec Harness CoreSource
  unfolding release_mappings fetch_failed describe_core
  fetch_core destination ref = do
    mappings ← release_mappings
    mkdir destination
    git ("init" ∷ "--quiet" ∷ destination ∷ [])
    git ("-C" ∷ destination ∷ "remote" ∷ "add" ∷ "origin" ∷ core_url ∷ [])
    catch
        (git (
          "-C"
          ∷ destination
          ∷ "fetch"
          ∷ "--quiet"
          ∷ "--depth"
          ∷ "1"
          ∷ "origin"
          ∷ Catalog.fetch_ref mappings ref
          ∷ []))
        (fetch_failed ref)
    git ("-C" ∷ destination ∷ "checkout" ∷ "--quiet" ∷ "--detach" ∷ "FETCH_HEAD" ∷ [])
    git (
        "-C" ∷ destination ∷ "submodule" ∷ "update" ∷ "--init" ∷ "--recursive" ∷ "--depth" ∷ "1"
        ∷ [])
    sha ← git_value destination ("rev-parse" ∷ "HEAD" ∷ []) "unknown"
    describe_core destination sha ref false

  unfoldable pub snapshot_failed : {A : Type 0} → Exc → Exec Harness A
  snapshot_failed (os_error k m) =
      raise (in_phase "resolve-core" ("failed to snapshot canokey-core: " <> m))
  snapshot_failed e = raise e

  unfoldable pub snapshot_core : FilePath → FilePath → String → Exec Harness CoreSource
  unfolding snapshot_failed describe_core
  snapshot_core destination source ref = do
    tree ← exists (join source "CMakeLists.txt")
    raise_if (not tree) (in_phase "resolve-core" ("not a canokey-core source tree: " <> source))
    sha ← git_value source ("rev-parse" ∷ "HEAD" ∷ []) "unknown"
    changes ← git_value source ("status" ∷ "--porcelain" ∷ []) ""
    catch (copy_core_tree source destination) snapshot_failed
    rust ← is_file (join destination "crates/ffi/Cargo.toml")
    let crypto = if rust then "third_party/canokey-crypto" else "canokey-crypto"
    complete ← exists (join (join destination crypto) "CMakeLists.txt")
    raise_if (not complete) (
        in_phase "resolve-core"
          "canokey-core submodules are missing; run git submodule update --init --recursive")
    describe_core destination sha ref (not (changes == ""))

  unfoldable pub resolve_from : Options → FilePath → Exec Harness CoreSource
  unfolding fetch_core snapshot_core
  resolve_from o destination =
      if is_given o.core_ref
      then fetch_core destination (get_or o.core_ref "")
      else elim o.core_dir [
        | some source ↦ snapshot_core destination source "external"
        | none ↦ snapshot_core destination (join o.repo_dir "canokey-core") "submodule"
      ]

  unfoldable pub resolve_core : Exec Harness CoreSource
  unfolding resolve_from
  resolve_core = do
    options ← gets (λ h. h.options)
    workspace ← gets (λ h. h.workspace)
    resolve_from options (join workspace "core")
