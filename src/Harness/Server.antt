-- ===== src/Harness/Server.antt =====
-- `start_server`, `write_state` and `stop_server`: the virtual device's process.
use Prim.Native.Nat.{min}
use canokey_usbip.Prelude.{
  ℕ, zero, suc, ◌*◌, String, ◌<>◌, Bool, false, not, ◌&&◌, Option, none, some, List, [], ◌∷◌, ℤ,
  pos, negsuc, is_zero, is_empty, eqb, lookup, show_int, all, if◌then◌else◌,
}
use canokey_usbip.Host.{
  join, sigterm, sigkill, Json, JsonDict, json, Env, Exc, os_error, other_os, process_lookup,
  permission, value_error, type_error, timeout_expired, in_phase, Exec, pure, raise, gets, modify,
  catch, ◌>>=◌, ◌>>◌,
}
use canokey_usbip.Host.Calls.{
  mkdir, open_log, popen, poll, wait, wait_exit, killpg, probe, exists, read_json, write_text,
}
use canokey_usbip.Host.Polling.{Probe, stop, go_on, Waited, found, expired, poll_for}
use canokey_usbip.Text.Strip.{strip, parent}
use canokey_usbip.Text.Match.{codes, is_digit, decimal, has_part}
use canokey_usbip.Command.{run_command}
use canokey_usbip.Platform.{default_vid, default_pid, bus_id, usbip_port}
use canokey_usbip.Harness.State.{Harness}
use canokey_usbip.Harness.Build.{asserted}

abbrev json_text : Option String → Json
json_text none = Json.null
json_text (some s) = Json.str s

-- The dict that `write_state` writes.
unfoldable pub state_of : Harness → ℕ → Option String → JsonDict
state_of h pid usb_port =
    ("pid", Json.num (pos pid))
    ∷ ("usb_port", json_text usb_port)
    ∷ ("binary", json_text h.binary)
    ∷ ("storage", Json.str h.storage)
    ∷ ("output_dir", Json.str h.output_dir)
    ∷ ("timeout", Json.num (pos h.options.timeout))
    ∷ ("touch", Json.bool h.options.touch)
    ∷ ("readiness_requirements", Json.strs h.options.readiness_requirements)
    ∷ ("usb_vid", Json.str (elim h.core [ some c ↦ c.usb_vid | none ↦ default_vid ]))
    ∷ ("usb_pid", Json.str (elim h.core [ some c ↦ c.usb_pid | none ↦ default_pid ]))
    ∷ []

-- int(value), of what a JSON file can hold. A text counts if it is decimal digits.
unfoldable pub int_of : {S : Type 0} → Option Json → Exec S ℤ
int_of (some (Json.num n)) = pure n
int_of (some (Json.bool b)) = pure (if b then pos 1 else pos 0)
int_of (some (Json.str s)) =
    let digits = codes (strip s) in
    if not (is_empty digits) && all is_digit digits
    then pure (pos (decimal 0 digits))
    else raise (value_error "invalid literal for int() with base 10")
int_of _ =
    raise (type_error "int() argument must be a string, a bytes-like object or a real number")

-- except ProcessLookupError: pass, and so for two classes
unfoldable pub pass_gone : {S : Type 0} → Exc → Exec S (Unit {0})
pass_gone (os_error process_lookup m) = pure tt
pass_gone e = raise e

unfoldable pub pass_gone_or_foreign : {S : Type 0} → Exc → Exec S (Unit {0})
pass_gone_or_foreign (os_error process_lookup m) = pure tt
pass_gone_or_foreign (os_error permission m) = pure tt
pass_gone_or_foreign e = raise e

module _ ⦃host : Env⦄ where
  unfoldable pub write_state : ℕ → Option String → Exec Harness (Unit {0})
  unfolding state_of
  write_state pid usb_port = do
    path ← gets (λ h. h.state_path)
    state ← gets (λ h. state_of h pid usb_port)
    write_text path (json state)

  abbrev pub list_command : List String
  list_command = "usbip" ∷ "--tcp-port" ∷ usbip_port ∷ "list" ∷ "--remote" ∷ "127.0.0.1" ∷ []

  unfoldable pub list_failed : Exc → Exec Harness Bool
  list_failed (os_error k m) = pure false
  list_failed (timeout_expired m) = pure false
  list_failed e = raise e

  unfoldable pub server_exited : Option ℤ → Exec Harness (Unit {0})
  server_exited none = pure tt
  server_exited (some code) = raise (
      in_phase "start"
        ("canokey-usbip exited during startup (" <> (show_int code <> "); see usbip.log")))

  -- The body of the loop: the process lives, and `usbip list` shows the bus id.
  unfoldable pub check_server : ℕ → Unit {0} → Exec Harness (Probe (Unit {0}) (Unit {0}))
  unfolding list_failed server_exited
  check_server pid _ = do
    code ← poll pid
    server_exited code
    listed ←
        catch
          (do
            result ← run_command list_command none (some 3) false false
            pure (is_zero result.returncode && has_part (codes bus_id) (codes result.stdout)))
          list_failed
    pure (if listed then stop tt else go_on tt)

  unfoldable pub server_waited : Waited (Unit {0}) (Unit {0}) → Exec Harness (Unit {0})
  server_waited (found _) = pure tt
  server_waited (expired _) =
      raise (in_phase "start" "canokey-usbip did not expose busid 1-1 before startup timeout")

  unfoldable pub start_server : Exec Harness (Unit {0})
  unfolding write_state check_server server_waited asserted
  start_server = do
    built ← gets (λ h. h.binary)
    binary ← asserted built
    storage ← gets (λ h. h.storage)
    output_dir ← gets (λ h. h.output_dir)
    options ← gets (λ h. h.options)
    mkdir (parent storage)
    open_log (join output_dir "usbip.log")
    pid ←
        popen (binary ∷ storage ∷ usbip_port ∷ (if options.touch then "touch" ∷ [] else [])) none []
    modify (λ h. record h { server = some pid })
    write_state pid none
    result ← poll_for (min options.timeout 15 * 1000) 250 tt (check_server pid)
    server_waited result

  unfoldable pub kill_quietly : ℕ → Exec Harness (Unit {0})
  unfolding pass_gone_or_foreign
  kill_quietly pid = catch (killpg pid sigkill) pass_gone_or_foreign

  -- The server is our own child: it is waited for, and killed after five seconds.
  unfoldable pub killed : Option ℤ → Exec Harness (Unit {0})
  killed (some code) = pure tt
  killed none = raise (timeout_expired "timed out after 5 seconds")

  unfoldable pub reap_or_kill : ℕ → Option ℤ → Exec Harness (Unit {0})
  unfolding kill_quietly killed
  reap_or_kill pid (some code) = pure tt
  reap_or_kill pid none = do kill_quietly pid; code ← wait pid 5; killed code

  unfoldable pub reap : ℕ → Exec Harness (Unit {0})
  unfolding reap_or_kill
  reap pid = do code ← wait pid 5; reap_or_kill pid code

  unfoldable pub probe_gone : Exc → Exec Harness (Probe (Unit {0}) (Unit {0}))
  probe_gone (os_error process_lookup m) = pure (stop tt)
  probe_gone e = raise e

  unfoldable pub check_gone : ℕ → Unit {0} → Exec Harness (Probe (Unit {0}) (Unit {0}))
  unfolding probe_gone
  check_gone pid _ = catch (do probe pid; pure (go_on tt)) probe_gone

  unfoldable pub kill_if_expired : ℕ → Waited (Unit {0}) (Unit {0}) → Exec Harness (Unit {0})
  unfolding kill_quietly
  kill_if_expired pid (found _) = pure tt
  kill_if_expired pid (expired _) = kill_quietly pid

  -- The process is another's: it is probed until it is gone, and killed after five seconds.
  unfoldable pub await_gone : ℕ → Exec Harness (Unit {0})
  unfolding check_gone kill_if_expired
  await_gone pid = do result ← poll_for 5000 100 tt (check_gone pid); kill_if_expired pid result

  -- The last lines: a child that has ended is reaped.
  unfoldable pub reap_if_ended : ℕ → Option ℤ → Exec Harness (Unit {0})
  reap_if_ended pid none = pure tt
  reap_if_ended pid (some code) = do wait_exit pid; pure tt

  unfoldable pub reap_server : Option ℕ → Exec Harness (Unit {0})
  unfolding reap_if_ended
  reap_server none = pure tt
  reap_server (some pid) = do code ← poll pid; reap_if_ended pid code

  abbrev pub is_server : ℕ → Option ℕ → Bool
  is_server pid none = false
  is_server pid (some own) = eqb own pid

  unfoldable pub stop_recorded : ℤ → Option ℕ → Exec Harness (Unit {0})
  unfolding pass_gone reap await_gone reap_server
  stop_recorded (pos zero) server = reap_server server
  stop_recorded (pos (suc n)) server = do
    catch (killpg (suc n) sigterm) pass_gone
    if is_server (suc n) server then reap (suc n) else (do await_gone (suc n); reap_server server)
  stop_recorded (negsuc n) server = raise (os_error other_os "Invalid argument")

  -- except (ValueError, TypeError, JSONDecodeError): pass, with no pid
  unfoldable pub no_pid : Exc → Exec Harness ℤ
  no_pid (value_error m) = pure (pos 0)
  no_pid (type_error m) = pure (pos 0)
  no_pid e = raise e

  unfoldable pub recorded_pid : Exec Harness ℤ
  unfolding int_of no_pid
  recorded_pid = do
    path ← gets (λ h. h.state_path)
    present ← exists path
    if not present
        then pure (pos 0)
        else catch (do state ← read_json path; int_of (lookup "pid" state)) no_pid

  unfoldable pub stop_server : Exec Harness (Unit {0})
  unfolding recorded_pid stop_recorded
  stop_server = do pid ← recorded_pid; server ← gets (λ h. h.server); stop_recorded pid server
