-- ===== src/Control/Recorded.antt =====
-- The abstract view of the state file: the process and the port that it names, and how a command that
-- works changes them.
use canokey_usbip.Prelude.{◌≡◌, ℕ, pos, Option, some, lookup}
use canokey_usbip.Host.{History, Env, Json}
use canokey_usbip.Control.Command.{Command}
use canokey_usbip.Control.State.{Session}
use canokey_usbip.Control.Start.{port_json}
use canokey_usbip.Control.Filed.{IsFiled}
use canokey_usbip.Control.Launching.{Launched}

pub record Recorded : Type 0 where
  pub pid : Option Json
  pub port : Option Json

abbrev pub recorded : Session → Recorded
recorded s = record { pid = lookup "pid" s.state; port = lookup "usb_port" s.state }

-- The port of the platform.
abbrev held : Session → Option Json
held s = some (port_json s.platform.usb_port)

-- The device as the file knows it, from the dict `s.state` and the history `t` to `s'.state` and `t'`:
-- `start` and `restart` name the process that they have started and the platform's port, `stop` names
-- neither, `attach` names the platform's port and `detach` none, and all five have written the file;
-- `touch` and `collect_debug` leave the dict as it is.
pub data Transition ⦃host : Env⦄ (s : Session) (t : History) (s' : Session) (t' : History)
    : Command → Type 0 where
  starts :
      (pid : ℕ)
      → Launched t t' pid
      → recorded s' ≡ record { pid = some (Json.num (pos pid)); port = held s' }
      → IsFiled s' t'
      → Transition s t s' t' Command.start
  stops :
      recorded s' ≡ record { pid = some Json.null; port = some Json.null }
      → IsFiled s' t'
      → Transition s t s' t' Command.stop
  restarts :
      (pid : ℕ)
      → Launched t t' pid
      → recorded s' ≡ record { pid = some (Json.num (pos pid)); port = held s' }
      → IsFiled s' t'
      → Transition s t s' t' Command.restart
  attaches :
      recorded s' ≡ record { pid = (recorded s).pid; port = held s' }
      → IsFiled s' t'
      → Transition s t s' t' Command.attach
  detaches :
      recorded s' ≡ record { pid = (recorded s).pid; port = some Json.null }
      → IsFiled s' t'
      → Transition s t s' t' Command.detach
  touches : s'.state ≡ s.state → Transition s t s' t' Command.touch
  collects : s'.state ≡ s.state → Transition s t s' t' Command.collect_debug
