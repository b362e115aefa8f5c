-- ===== src/Harness/Trial.antt =====
-- `run_test`: the caller's command, with the environment that describes the device.
use mathlib.Core.Option.{get_or}
use canokey_usbip.Prelude.{ℕ, String, Option, none, some, List, [], ◌∷◌, ℤ, pos, lookup, insert}
use canokey_usbip.Host.{
  FilePath, join, sigterm, sigkill, Json, Env, type_error, assertion_error, Exec, pure, raise,
  raise_if, gets, ◌>>=◌, ◌>>◌,
}
use canokey_usbip.Host.Calls.{open_log, popen, wait, wait_exit, killpg, read_text}
use canokey_usbip.Text.Strip.{strip}
use canokey_usbip.Options.{CoreSource, is_given}
use canokey_usbip.Platform.{Status}
use canokey_usbip.Harness.State.{Harness}
use canokey_usbip.Harness.Build.{asserted}
use canokey_usbip.Prelude.{not}

abbrev pub Environment : Type 0
Environment = List (String × String)

abbrev json_str : Option Json → String
json_str (some (Json.str s)) = s
json_str _ = ""

-- What `environment.update` adds to the caller's environment.
unfoldable pub test_environment : Harness → CoreSource → String → Environment
test_environment h core version =
    ("CANOKEY_USBIP", "1")
    ∷ ("CANOKEY_CORE_REF", core.ref)
    ∷ ("CANOKEY_CORE_SHA", core.sha)
    ∷ ("CANOKEY_FIRMWARE_VERSION", version)
    ∷ ("CANOKEY_USBIP_SHA", json_str (lookup "canokey_usbip_sha" h.metadata))
    ∷ ("CANOKEY_STORAGE", h.storage)
    ∷ ("CANOKEY_TEST_OUTPUT", h.output_dir)
    ∷ ("CANOKEY_USBIP_STATE", h.state_path)
    ∷ ("CANOKEY_USB_VID", core.usb_vid)
    ∷ ("CANOKEY_USB_PID", core.usb_pid)
    ∷ ("CANOKEY_DEVICE_RESTART", join h.options.repo_dir "compat/scripts/restart-device.sh")
    ∷ ("CANOKEY_DEVICE_TOUCH", join h.options.repo_dir "compat/scripts/touch-device.sh")
    ∷ []

-- The first reader of the attachment, if there is one.
unfoldable pub reader_environment : List String → Environment → Environment
reader_environment [] e = e
reader_environment (r ∷ rs) e = insert "CANOKEY_PCSC_READER" r e

module _ ⦃host : Env⦄ where
  unfoldable pub device_environment : Option FilePath → Environment → Exec Harness Environment
  device_environment none e = pure e
  device_environment (some device) e = do
    bus ← read_text (join device "busnum")
    number ← read_text (join device "devnum")
    pure (insert "CANOKEY_USB_DEVICE" (strip number) (insert "CANOKEY_USB_BUS" (strip bus) e))

  -- A command that outlives its time is told to end, killed after five seconds more, and counts as 124.
  unfoldable pub kill_test : ℕ → Option ℤ → Exec Harness ℤ
  kill_test pid (some code) = pure (pos 124)
  kill_test pid none = do killpg pid sigkill; wait_exit pid; pure (pos 124)

  unfoldable pub end_test : ℕ → Option ℤ → Exec Harness ℤ
  unfolding kill_test
  end_test pid (some code) = pure code
  end_test pid none = do killpg pid sigterm; code ← wait pid 5; kill_test pid code

  -- Popen refuses an environment with a value that is None.
  unfoldable pub known_version : Option String → Exec Harness String
  known_version none = raise (type_error "expected str, bytes or os.PathLike object, not NoneType")
  known_version (some version) = pure version

  -- The test command of a harness with a core, which is not changed from here on.
  unfoldable pub launch_test : Status → CoreSource → Harness → Exec Harness ℤ
  unfolding device_environment end_test known_version test_environment reader_environment
  launch_test ready core h = do
    raise_if (not (is_given h.options.test_command)) assertion_error
    with_device ←
        device_environment h.platform.device_path
          (test_environment h core (get_or core.firmware_version ""))
    let environment = reader_environment ready.pcsc_readers with_device
    open_log (join h.output_dir "test.stdout")
    open_log (join h.output_dir "test.stderr")
    known_version core.firmware_version
    pid ←
        popen ("bash" ∷ "-lc" ∷ get_or h.options.test_command "" ∷ []) (some h.options.caller_dir)
          environment
    code ← wait pid h.options.timeout
    end_test pid code

  unfoldable pub run_test : Status → Exec Harness ℤ
  unfolding asserted launch_test
  run_test ready = do
    resolved ← gets (λ h. h.core)
    core ← asserted resolved
    h ← gets (λ h. h)
    launch_test ready core h
