-- ===== src/Platform/Attachment.antt =====
-- `attach` and `detach`: taking and giving up the USB/IP port.
use canokey_usbip.Prelude.{
  ◌==◌, ℕ, ◌*◌, String, ◌<>◌, Bool, true, false, not, Option, none, some, List, [], ◌∷◌, show,
  difference, if◌then◌else◌,
}
use canokey_usbip.Host.{
  FilePath, Env, Exc, pcsc_query_error, timeout_expired, message, is_harness_error, in_phase, Exec,
  pure, raise, gets, modify, catch, finally, ◌>>=◌, ◌>>◌,
}
use canokey_usbip.Host.Calls.{which}
use canokey_usbip.Host.Polling.{Probe, stop, go_on, Waited, found, expired, poll_for}
use canokey_usbip.Text.Match.{path_lt}
use canokey_usbip.Command.{run_command}
use canokey_usbip.Platform.State.{Platform, usbip_port, bus_id}
use canokey_usbip.Platform.Preflight.{privileged}
use canokey_usbip.Platform.Usb.{matching_usb_devices}
use canokey_usbip.Platform.Ports.{find_usbip_port}
use canokey_usbip.Platform.Pcsc.{pcsc_readers}

-- x or []
abbrev pub or_nothing : Option (List String) → List String
or_nothing none = []
or_nothing (some xs) = xs

-- sorted(paths)[0]: the least of the paths.
unfoldable pub least : String → List String → String
least x [] = x
least x (y ∷ ys) = least (if path_lt y x then y else x) ys

unfoldable pub baseline_failed : {A : Type 0} → Exc → Exec Platform A
baseline_failed (pcsc_query_error m) =
    raise (in_phase "attach" ("Cannot establish PC/SC reader baseline: " <> m))
baseline_failed e = raise e

unfoldable pub attach_failed : {A : Type 0} → Exc → Exec Platform A
attach_failed (timeout_expired m) = raise (in_phase "attach" ("USB/IP attach failed: " <> m))
attach_failed e =
    if is_harness_error e
    then raise (in_phase "attach" ("USB/IP attach failed: " <> message e))
    else raise e

module _ ⦃host : Env⦄ where
  abbrev pub attach_command : List String
  attach_command =
      "usbip" ∷ "--tcp-port" ∷ usbip_port ∷ "attach" ∷ "--remote" ∷ "127.0.0.1" ∷ "--busid" ∷ bus_id
      ∷ []

  abbrev pub detach_command : String → List String
  detach_command port = "usbip" ∷ "detach" ∷ "--port" ∷ port ∷ []

  unfoldable pub find_port_again : Option String → Exec Platform (Unit {0})
  find_port_again (some port) = pure tt
  find_port_again none = do port ← find_usbip_port; modify (λ p. record p { usb_port = port })

  unfoldable pub take_device : List FilePath → Exec Platform (Probe (Unit {0}) (Unit {0}))
  unfolding find_port_again least
  take_device [] = pure (go_on tt)
  take_device (d ∷ ds) = do
    modify (λ p. record p { device_path = some (least d ds) })
    port ← gets (λ p. p.usb_port)
    find_port_again port
    pure (stop tt)

  -- The body of the loop of `attach`.
  unfoldable pub look_for_device :
      List FilePath → Unit {0} → Exec Platform (Probe (Unit {0}) (Unit {0}))
  unfolding take_device
  look_for_device before _ = do
    devices ← matching_usb_devices
    take_device (difference devices before)

  unfoldable pub attached : ℕ → Waited (Unit {0}) (Unit {0}) → Exec Platform (Unit {0})
  attached timeout (found _) = pure tt
  attached timeout (expired _) = raise (
      in_phase "attach" ("Timed out waiting for USB device after " <> (show timeout <> " seconds")))

  -- What follows the attach command.
  unfoldable pub await_device : List FilePath → Exec Platform (Unit {0})
  unfolding look_for_device attached
  await_device before = do
    timeout ← gets (λ p. p.timeout)
    result ← poll_for (timeout * 1000) 250 tt (look_for_device before)
    attached timeout result

  unfoldable pub attach : List FilePath → Exec Platform (Unit {0})
  unfolding baseline_failed attach_failed await_device
  attach before = do
    readers_before ← catch pcsc_readers baseline_failed
    modify (λ p. record p { pcsc_readers_before = or_nothing readers_before })
    catch (run_command (privileged attach_command) none (some 30) false true) attach_failed
    modify (λ p. record p { owns_attachment = true })
    port ← find_usbip_port
    modify (λ p. record p { usb_port = port })
    await_device before

  abbrev pub released : Platform → Platform
  released p = record p { owns_attachment = false; usb_port = none; device_path = none }

  unfoldable pub detach_port : Option String → Exec Platform (Unit {0})
  detach_port none = pure tt
  detach_port (some port) =
      finally
        (do run_command (privileged (detach_command port)) none (some 20) false false; pure tt)
        (modify released)

  -- self.usb_port or self.find_usbip_port()
  unfoldable pub known_port : Option String → Exec Platform (Option String)
  known_port (some port) = if port == "" then find_usbip_port else pure (some port)
  known_port none = find_usbip_port

  unfoldable pub detach_owned : Bool → Exec Platform (Unit {0})
  unfolding detach_port known_port
  detach_owned false = pure tt
  detach_owned true = do
    usbip ← which "usbip"
    if not usbip
        then pure tt
        else do usb_port ← gets (λ p. p.usb_port); port ← known_port usb_port; detach_port port

  unfoldable pub detach : Exec Platform (Unit {0})
  unfolding detach_owned
  detach = do owns ← gets (λ p. p.owns_attachment); detach_owned owns
