-- ===== src/Platform/Preflight.antt =====
-- `privileged`, `require_host` and `prepare_host`.
use canokey_usbip.Prelude.{
  String, ◌<>◌, Bool, true, false, not, none, some, List, [], ◌∷◌, ◌++◌, eqb, is_empty, joined,
  if◌then◌else◌,
}
use canokey_usbip.Host.{Env, in_phase, Exec, pure, raise_if, ◌>>=◌, ◌>>◌}
use canokey_usbip.Host.Calls.{exists, is_dir, which}
use canokey_usbip.Command.{run_command}

module _ ⦃host : Env⦄ where
  -- The command itself for root, and under `sudo -n` for anybody else.
  unfoldable pub privileged : List String → List String
  privileged argv = if eqb host.euid 0 then argv else "sudo" ∷ "-n" ∷ argv

module _ ⦃host : Env⦄ {S : Type 0} where
  unfoldable pub vhci_available : Exec S Bool
  vhci_available = exists "/sys/devices/platform/vhci_hcd.0"

  unfoldable pub usbfs_available : Exec S Bool
  usbfs_available = is_dir "/dev/bus/usb"

  -- The name itself if the host lacks the command.
  unfoldable pub missing_command : String → Exec S (List String)
  missing_command name = do found ← which name; pure (if found then [] else name ∷ [])

  unfoldable pub require_host : Exec S (Unit {0})
  unfolding missing_command vhci_available
  require_host = do
    raise_if (not host.is_linux) (in_phase "host" "USB/IP attach is supported on Linux only")
    usbip ← missing_command "usbip"
    loaded ← vhci_available
    modprobe ← if loaded then pure [] else missing_command "modprobe"
    sudo ← if eqb host.euid 0 then pure [] else missing_command "sudo"
    let missing = usbip ++ (modprobe ++ sudo)
    raise_if (not (is_empty missing))
        (in_phase "host" ("missing required command(s): " <> joined ", " missing))

  unfoldable pub load_vhci : Bool → Exec S (Unit {0})
  load_vhci loaded = if loaded then pure tt else (do
    run_command (privileged ("modprobe" ∷ "vhci_hcd" ∷ [])) none (some 20) false true
    pure tt)

  -- shutil.which("systemctl") and shutil.which("pcscd")
  unfoldable pub has_pcscd_service : Exec S Bool
  has_pcscd_service = do
    systemctl ← which "systemctl"
    if systemctl then which "pcscd" else pure systemctl

  unfoldable pub start_pcscd : Bool → Exec S (Unit {0})
  start_pcscd present =
      if present
      then (do
        run_command (privileged ("systemctl" ∷ "start" ∷ "pcscd" ∷ [])) none (some 20) false false
        pure tt)
      else pure tt

  unfoldable pub prepare_host : Exec S (Unit {0})
  unfolding require_host load_vhci has_pcscd_service start_pcscd usbfs_available vhci_available
  prepare_host = do
    require_host
    before ← vhci_available
    load_vhci before
    loaded ← vhci_available
    raise_if (not loaded) (in_phase "host" "vhci_hcd loaded but its sysfs device is unavailable")
    usbfs ← usbfs_available
    raise_if (not usbfs) (
        in_phase "host"
          "usbfs device nodes are unavailable at /dev/bus/usb; use a Linux VM or runner with host USB support")
    present ← has_pcscd_service
    start_pcscd present
