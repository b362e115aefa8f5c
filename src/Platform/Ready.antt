-- ===== src/Platform/Ready.antt =====
-- `wait_ready`: the layers of the device are probed until those that are asked for are there.
use canokey_usbip.Prelude.{
  sorted, ℕ, ◌*◌, String, ◌<>◌, Bool, true, false, not, ◌&&◌, ◌||◌, Option, none, some, List, [],
  ◌∷◌, show, joined, contains, difference, fresh, is_some, is_empty, lookup, all, if◌then◌else◌,
}
use canokey_usbip.Host.{
  FilePath, Env, Exc, pcsc_query_error, key_error, in_phase, Exec, pure, raise, gets, catch, ◌>>=◌,
}
use canokey_usbip.Host.Calls.{exists}
use canokey_usbip.Host.Polling.{Probe, stop, go_on, Waited, found, expired, poll_for}
use canokey_usbip.Platform.State.{Platform}
use canokey_usbip.Platform.Usb.{interface_classes, hidraw_ready}
use canokey_usbip.Platform.Pcsc.{pcsc_readers}
use canokey_usbip.Platform.Attachment.{or_nothing}

-- The dict `status`.
pub record Status : Type 0 where
  pub usb : Bool
  pub ccid_interface : Bool
  pub hid_interface : Bool
  pub webusb_interface : Bool
  pub hidraw : Bool
  pub pcsc_checked : Bool
  pub pcsc_readers : List String
  pub pcsc_all_readers : List String
  pub pcsc : Bool

-- The dict `requirement_status`.
abbrev pub Requirements : Type 0
Requirements = List (String × Bool)

unfoldable pub default_requirements : Status → Requirements
default_requirements s =
    ("usb", s.usb)
    ∷ ("ccid_interface", s.ccid_interface)
    ∷ ("hid_interface", s.hid_interface)
    ∷ ("webusb_interface", s.webusb_interface)
    ∷ ("hidraw", s.hidraw)
    ∷ ("pcsc", s.pcsc)
    ∷ []

-- The dict `all_requirements`.
unfoldable pub all_requirements : Status → Requirements
all_requirements s =
    ("usb", s.usb)
    ∷ ("ccid", s.ccid_interface)
    ∷ ("hid", s.hid_interface && s.hidraw)
    ∷ ("webusb", s.webusb_interface)
    ∷ ("pcsc", s.pcsc_checked && not (is_empty s.pcsc_readers))
    ∷ []

unfoldable pub picked :
    String → Option Bool → Exec Platform Requirements → Exec Platform Requirements
picked name none rest = raise (key_error name)
picked name (some ready) rest = do others ← rest; pure ((name, ready) ∷ others)

unfoldable pub pick : Requirements → List String → Exec Platform Requirements
unfolding picked
pick table [] = pure []
pick table (name ∷ names) = picked name (lookup name table) (pick table names)

-- {name: bool(…) for name in …}: the layers that decide. The caller's names have no repetitions.
unfoldable pub requirement_status : List String → Status → Exec Platform Requirements
unfolding pick default_requirements all_requirements
requirement_status [] s = pure (default_requirements s)
requirement_status (name ∷ names) s = pick (all_requirements s) (name ∷ names)

-- all(requirement_status.values())
abbrev pub all_ready : Requirements → Bool
all_ready = all (λ (name, ready). ready)

abbrev pub unmet : Requirements → List String
unmet [] = []
unmet ((name, ready) ∷ rs) = if ready then unmet rs else name ∷ unmet rs

show_bool : Bool → String
show_bool true = "True"
show_bool false = "False"

-- The lines of `details`. A list of readers is shown without the escapes of repr.
unfoldable pub show_status : Option Status → String
unfolding show_bool
show_status none = ""
show_status (some s) = joined "\n" (
    ("  usb: " <> show_bool s.usb)
    ∷ ("  ccid_interface: " <> show_bool s.ccid_interface)
    ∷ ("  hid_interface: " <> show_bool s.hid_interface)
    ∷ ("  webusb_interface: " <> show_bool s.webusb_interface)
    ∷ ("  hidraw: " <> show_bool s.hidraw)
    ∷ ("  pcsc_checked: " <> show_bool s.pcsc_checked)
    ∷ ("  pcsc_readers: [" <> (joined ", " s.pcsc_readers <> "]"))
    ∷ ("  pcsc_all_readers: [" <> (joined ", " s.pcsc_all_readers <> "]"))
    ∷ ("  pcsc: " <> show_bool s.pcsc)
    ∷ [])

unfoldable pub readiness_failed : {A : Type 0} → Exc → Exec Platform A
readiness_failed (pcsc_query_error m) = raise (in_phase "readiness" m)
readiness_failed e = raise e

module _ ⦃host : Env⦄ where
  unfoldable pub device_exists : Option FilePath → Exec Platform Bool
  device_exists none = pure false
  device_exists (some p) = exists p

  -- One set of probes.
  unfoldable pub probe_status : Exec Platform Status
  unfolding readiness_failed device_exists
  probe_status = do
    classes ← interface_classes
    readers ← catch pcsc_readers readiness_failed
    before ← gets (λ p. p.pcsc_readers_before)
    device ← gets (λ p. p.device_path)
    present ← device_exists device
    hidraw ← hidraw_ready
    let new_readers = sorted (fresh [] (difference (or_nothing readers) before))
    pure (record {
      usb = present;
      ccid_interface = contains classes "0b";
      hid_interface = contains classes "03";
      webusb_interface = contains classes "ff";
      hidraw = hidraw;
      pcsc_checked = is_some readers;
      pcsc_readers = new_readers;
      pcsc_all_readers = or_nothing readers;
      pcsc = not (is_some readers) || not (is_empty new_readers);
    })

  -- The body of the loop. A round that is not ready leaves its requirements and status behind.
  unfoldable pub check_ready :
      Requirements × Option Status → Exec Platform (Probe (Requirements × Option Status) Status)
  check_ready last = do
    status ← probe_status
    names ← gets (λ p. p.readiness_requirements)
    requirements ← requirement_status names status
    pure (if all_ready requirements then stop status else go_on (requirements, some status))

  unfoldable pub ready_or_timeout :
      ℕ → Waited (Requirements × Option Status) Status → Exec Platform Status
  ready_or_timeout timeout (found status) = pure status
  ready_or_timeout timeout (expired (requirements, last)) = raise (
      in_phase "readiness" (
        "Timed out waiting for virtual CanoKey after "
        <> (show timeout
            <> (" seconds\nUnmet readiness requirements: "
                <> (joined ", " (unmet requirements) <> ("\n" <> show_status last))))))

  unfoldable pub wait_ready : Exec Platform Status
  unfolding check_ready ready_or_timeout
  wait_ready = do
    timeout ← gets (λ p. p.timeout)
    result ← poll_for (timeout * 1000) 250 ([], none) check_ready
    ready_or_timeout timeout result
