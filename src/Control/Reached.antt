-- ===== src/Control/Reached.antt =====
-- The dicts that a state file comes to hold: `write_state` writes the first one, and the commands change
-- it, one after another.
use canokey_usbip.Prelude.{◌≡◌, ℕ, pos, String, false, ◌==◌, Option, none, some, ◌⊎◌, lookup}
use canokey_usbip.Host.{History, Env, Json, JsonDict}
use canokey_usbip.Harness.{Harness, state_of}
use canokey_usbip.Control.Command.{Command}
use canokey_usbip.Control.State.{Session}
use canokey_usbip.Control.Start.{port_json}
use canokey_usbip.Control.Main.{act}

-- A harness has written the file, and commands have changed its dict, whether they returned or raised.
pub data Reached ⦃host : Env⦄ (h : Harness) : JsonDict → Type 0 where
  written : (pid : ℕ) (port : Option String) → Reached h (state_of h pid port)
  changed :
      (command : Command) (s : Session) (t : History)
      → Reached h s.state
      → Reached h (act command s t).1.state

-- The dict names a process or none, a port or none, and has what the harness wrote under the other keys.
pub record IsDeviceState (h : Harness) (d : JsonDict) : Type 0 where
  pub pid :
      (lookup "pid" d ≡ some Json.null) ⊎ ((n : ℕ) × (lookup "pid" d ≡ some (Json.num (pos n))))
  pub port : (o : Option String) × (lookup "usb_port" d ≡ some (port_json o))
  pub others :
      (k : String)
      → ("pid" == k) ≡ false
      → ("usb_port" == k) ≡ false
      → lookup k d ≡ lookup k (state_of h 0 none)
