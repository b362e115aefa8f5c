-- ===== src/Platform/Debug.antt =====
-- `collect_debug`: diagnostics of the host, written to the output directory.
use canokey_usbip.Prelude.{
  String, ◌<>◌, true, false, Option, none, some, List, [], ◌∷◌, if◌then◌else◌,
}
use canokey_usbip.Host.{FilePath, join, Env, text, Exec, pure, gets, ◌>>=◌, ◌>>◌}
use canokey_usbip.Host.Calls.{which, write_text, open_log}
use canokey_usbip.Command.{run_command}
use canokey_usbip.Platform.State.{Platform}
use canokey_usbip.Platform.Preflight.{privileged}

module _ ⦃host : Env⦄ where
  -- with path.open("w") as log: run_command(command, log=log, check=False, timeout=20)
  unfoldable pub run_logged : FilePath → List String → Exec Platform (Unit {0})
  run_logged path command = do open_log path; run_command command none (some 20) true false; pure tt

  -- One round of the loop over `commands`; the first word names the program.
  unfoldable pub collect : String → String → List String → Exec Platform (Unit {0})
  unfolding run_logged
  collect filename program arguments = do
    output_dir ← gets (λ p. p.output_dir)
    present ← which program
    if present
        then run_logged (join output_dir filename) (program ∷ arguments)
        else write_text (join output_dir filename) (text (program <> " unavailable\n"))

  unfoldable pub collect_udev : Option FilePath → Exec Platform (Unit {0})
  unfolding run_logged
  collect_udev none = pure tt
  collect_udev (some device) = do
    present ← which "udevadm"
    output_dir ← gets (λ p. p.output_dir)
    if present
        then run_logged (join output_dir "udev.txt")
            ("udevadm" ∷ "info" ∷ "--query=all" ∷ ("--path=" <> device) ∷ [])
        else pure tt

  unfoldable pub collect_journal : Exec Platform (Unit {0})
  unfolding run_logged
  collect_journal = do
    present ← which "journalctl"
    output_dir ← gets (λ p. p.output_dir)
    if present
        then run_logged (join output_dir "pcscd.log")
            (privileged ("journalctl" ∷ "-u" ∷ "pcscd" ∷ "--no-pager" ∷ "-n" ∷ "300" ∷ []))
        else pure tt

  unfoldable pub collect_debug : Exec Platform (Unit {0})
  unfolding collect collect_udev collect_journal
  collect_debug = do
    identity ← gets (λ p. p.usb_vid <> (":" <> p.usb_pid))
    collect "usbip-port.txt" "usbip" ("port" ∷ [])
    collect "lsusb.txt" "lsusb" ("-v" ∷ "-d" ∷ identity ∷ [])
    collect "kernel.txt" "uname" ("-a" ∷ [])
    device ← gets (λ p. p.device_path)
    collect_udev device
    collect_journal
