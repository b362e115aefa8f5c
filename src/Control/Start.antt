-- ===== src/Control/Start.antt =====
-- `start`: a server process, its attachment, and what undoes both.
use Prim.Native.Nat.{min}
use canokey_usbip.Prelude.{
  ℕ, ◌*◌, String, ◌<>◌, false, ◌&&◌, Option, none, some, List, [], ◌∷◌, ℤ, pos, is_zero, lookup,
  pos_part, show_int, Bool, if◌then◌else◌,
}
use canokey_usbip.Host.{
  FilePath, join, Json, JsonDict, Env, Exc, runtime_error, Exec, pure, raise, gets, modify, catch,
  zoom, ◌>>=◌, ◌>>◌,
}
use canokey_usbip.Host.Calls.{open_log, popen, poll}
use canokey_usbip.Host.Polling.{Probe, stop, go_on, Waited, found, expired, poll_for}
use canokey_usbip.Text.Match.{codes, has_part}
use canokey_usbip.Command.{run_command}
use canokey_usbip.Platform.{
  Platform, bus_id, usbip_port, prepare_host, matching_usb_devices, attach, detach, wait_ready,
}
use canokey_usbip.Harness.{list_command, int_of}
use canokey_usbip.Control.State.{Session, required, text_of, is_true, platform_of, save_state}
use canokey_usbip.Control.Stop.{stop_pid}

-- A call of a method of `platform`.
abbrev pub with_platform : {A : Type 0} → Exec Platform A → Exec Session A
with_platform = zoom (λ s. s.platform) (λ p s. record s { platform = p })

abbrev pub port_json : Option String → Json
port_json none = Json.null
port_json (some port) = Json.str port

-- {"pid": None, "usb_port": None}
abbrev pub stopped_entries : JsonDict
stopped_entries = ("pid", Json.null) ∷ ("usb_port", Json.null) ∷ []

module _ ⦃host : Env⦄ where
  unfoldable pub exited : Option ℤ → Exec Session (Unit {0})
  exited none = pure tt
  exited (some code) =
      raise (runtime_error ("canokey-usbip exited during restart (" <> (show_int code <> ")")))

  -- The body of the loop. What `usbip list` raises is not caught here.
  unfoldable pub check_started : ℕ → Unit {0} → Exec Session (Probe (Unit {0}) (Unit {0}))
  unfolding exited
  check_started pid _ = do
    code ← poll pid
    exited code
    result ← run_command list_command none (some 3) false false
    pure (
        if is_zero result.returncode && has_part (codes bus_id) (codes result.stdout)
        then stop tt
        else go_on tt)

  unfoldable pub started_or_timeout : Waited (Unit {0}) (Unit {0}) → Exec Session (Unit {0})
  started_or_timeout (found _) = pure tt
  started_or_timeout (expired _) =
      raise (runtime_error "canokey-usbip did not become ready during restart")

  -- platform.attach(before), platform.wait_ready(), and the port goes to the state file.
  unfoldable pub attach_device : List FilePath → Exec Session (Unit {0})
  unfolding save_state
  attach_device before = do
    with_platform (attach before)
    with_platform wait_ready
    port ← gets (λ s. s.platform.usb_port)
    save_state (("usb_port", port_json port) ∷ [])

  -- The body of the `try` block.
  unfoldable pub bring_up : ℕ → List FilePath → Exec Session (Unit {0})
  unfolding check_started started_or_timeout attach_device
  bring_up pid before = do
    state ← gets (λ s. s.state)
    seconds ← required "timeout" state
    timeout ← int_of (some seconds)
    result ← poll_for (min (pos_part timeout) 15 * 1000) 250 tt (check_started pid)
    started_or_timeout result
    attach_device before

  -- if platform.owns_attachment: try: platform.detach(), except Exception: pass
  unfoldable pub detach_quietly : Bool → Exec Session (Unit {0})
  detach_quietly owns = if owns then catch (with_platform detach) (λ e. pure tt) else pure tt

  -- except BaseException: …, raise
  unfoldable pub undo : ℕ → Exc → Exec Session (Unit {0})
  unfolding detach_quietly save_state
  undo pid e = do
    owns ← gets (λ s. s.platform.owns_attachment)
    detach_quietly owns
    stop_pid (pos pid)
    save_state stopped_entries
    raise e

  unfoldable pub bring_up_or_undo : ℕ → List FilePath → Exec Session (Unit {0})
  unfolding undo
  bring_up_or_undo pid before = catch (bring_up pid before) (undo pid)

  unfoldable pub start : Exec Session (Unit {0})
  unfolding save_state bring_up_or_undo
  start = do
    state ← gets (λ s. s.state)
    platform ← platform_of state
    modify (λ s. record s { platform = platform })
    with_platform prepare_host
    before ← with_platform matching_usb_devices
    open_log (join platform.output_dir "usbip.log")
    binary ← required "binary" state
    storage ← required "storage" state
    binary' ← text_of binary
    storage' ← text_of storage
    pid ←
        popen
          (binary'
            ∷ storage'
            ∷ usbip_port
            ∷ (if is_true (lookup "touch" state) then "touch" ∷ [] else []))
          none []
    save_state (("pid", Json.num (pos pid)) ∷ ("usb_port", Json.null) ∷ [])
    bring_up_or_undo pid before
