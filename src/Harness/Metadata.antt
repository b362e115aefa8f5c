-- ===== src/Harness/Metadata.antt =====
-- `base_metadata`, `initial_metadata` and `save_metadata`: the record of a run. The JSON text itself
-- (indentation, sorted keys) is left to the content of the file.
use mathlib.Core.Option.{get_or}
use canokey_usbip.Prelude.{
  String, not, Option, none, some, [], ◌∷◌, update, is_some, ◌==◌, if◌then◌else◌,
}
use canokey_usbip.Host.{join, Json, JsonDict, json, Env, Exec, pure, gets, ◌>>=◌, ◌>>◌}
use canokey_usbip.Host.Calls.{mkdir, utc_now, write_text}
use canokey_usbip.Options.{Options, is_given}
use canokey_usbip.Command.{git_value, tool_version}
use canokey_usbip.Platform.{default_vid, default_pid}
use canokey_usbip.Harness.State.{Harness}
use canokey_usbip.Harness.Build.{asserted}

abbrev json_text : Option String → Json
json_text none = Json.null
json_text (some s) = Json.str s

-- core_ref or ("external" if core_dir else "submodule")
unfoldable pub requested_ref : Options → String
requested_ref o =
    if is_given o.core_ref
    then get_or o.core_ref ""
    else if is_some o.core_dir
    then "external"
    else "submodule"

module _ ⦃host : Env⦄ where
  unfoldable pub base_metadata : Exec Harness JsonDict
  unfolding requested_ref
  base_metadata = do
    h ← gets (λ h. h)
    sha ← git_value h.options.repo_dir ("rev-parse" ∷ "HEAD" ∷ []) "unknown"
    changes ← git_value h.options.repo_dir ("status" ∷ "--porcelain" ∷ []) ""
    usbip ← tool_version ("usbip" ∷ "version" ∷ [])
    cmake ← tool_version ("cmake" ∷ "--version" ∷ [])
    compiler ← tool_version (get_or (host.environ "CC") "cc" ∷ "--version" ∷ [])
    now ← utc_now
    pure (
        ("run_id", Json.str h.run_id)
        ∷ ("canokey_usbip_sha", Json.str sha)
        ∷ ("canokey_usbip_dirty", Json.bool (not (changes == "")))
        ∷ ("canokey_core_sha", Json.str "unknown")
        ∷ ("canokey_firmware_version", Json.null)
        ∷ ("canokey_core_ref", Json.str (requested_ref h.options))
        ∷ ("canokey_core_dirty", Json.null)
        ∷ ("canokey_core_compat_patches", Json.strs [])
        ∷ ("usb_vid", Json.str default_vid)
        ∷ ("usb_pid", Json.str default_pid)
        ∷ ("kernel", Json.str host.kernel)
        ∷ ("usbip_version", Json.str usbip)
        ∷ ("cmake_version", Json.str cmake)
        ∷ ("compiler", Json.str compiler)
        ∷ ("storage", Json.str h.storage)
        ∷ ("storage_is_explicit", Json.bool h.explicit_storage)
        ∷ ("test_command", json_text h.options.test_command)
        ∷ ("readiness_requirements", Json.strs h.options.readiness_requirements)
        ∷ ("caller_workspace", Json.str h.options.caller_dir)
        ∷ ("run_workspace", Json.str h.workspace)
        ∷ ("started_at", Json.str now)
        ∷ (
          "capabilities",
          Json.strs ("ccid" ∷ "hid" ∷ "webusb" ∷ "touch-simulation" ∷ "persistent-storage" ∷ []),
        )
        ∷ [])

  unfoldable pub initial_metadata : Exec Harness JsonDict
  unfolding base_metadata asserted
  initial_metadata = do
    resolved ← gets (λ h. h.core)
    core ← asserted resolved
    metadata ← base_metadata
    pure (
        update metadata (
          ("canokey_core_sha", Json.str core.sha)
          ∷ ("canokey_firmware_version", json_text core.firmware_version)
          ∷ ("canokey_core_ref", Json.str core.ref)
          ∷ ("canokey_core_dirty", Json.bool core.dirty)
          ∷ ("canokey_core_compat_patches", Json.strs core.patches)
          ∷ ("usb_vid", Json.str core.usb_vid)
          ∷ ("usb_pid", Json.str core.usb_pid)
          ∷ []))

  unfoldable pub save_metadata : Exec Harness (Unit {0})
  save_metadata = do
    output_dir ← gets (λ h. h.output_dir)
    metadata ← gets (λ h. h.metadata)
    mkdir output_dir
    write_text (join output_dir "metadata.json") (json metadata)
