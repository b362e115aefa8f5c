-- ===== src/Control/Transitions.antt =====
-- The commands refine the abstract view of the state file.
use canokey_usbip.Prelude.{◌≡◌, refl, lookup}
use canokey_usbip.Host.{History, Env, ok}
use canokey_usbip.Host.Reaches.{Ends-ok}
use canokey_usbip.Control.Command.{Command}
use canokey_usbip.Control.State.{Session}
use canokey_usbip.Control.Main.{act}
use canokey_usbip.Control.Undo.{NamesNothing}
use canokey_usbip.Control.Recorded.{Transition}
use canokey_usbip.Control.Named.{
  NamesBoth, NamesNoPort, stop_device-NamesNothing, attach-NamesBoth, detach-NamesNoPort,
}
use canokey_usbip.Control.Filed.{
  start_command-Files, stop-Files, restart-Files, attach-Files, detach-Files,
}
use canokey_usbip.Control.Launching.{start-NamesLaunched, restart-NamesLaunched}
use canokey_usbip.Control.Apart.{touch-Apart, collect_debug-Apart}

-- A command that returns has changed the process and the port in the dict of the state file by its
-- transition of the abstract view: start and restart to the id of a process that they have started and
-- to the port of the platform, stop to neither, attach and detach only the port, to the platform's and
-- to none; and the last call of these five has written the dict to the state file. touch and
-- collect-debug leave the dict as it is.
pub act-Transition :
    ⦃host : Env⦄ (command : Command) (s : Session) (t : History)
    → (act command s t).0 ≡ ok tt
    → Transition s t (act command s t).1 (act command s t).2 command
unfolding act
act-Transition Command.start s t e =
    let (pid, launched, (named, port)) = start-NamesLaunched s t e in
    Transition.starts pid launched (λ i. record { pid = named i; port = port i })
      (start_command-Files.at s t tt e)
act-Transition Command.stop s t e =
    let (pid, port) =
      Ends-ok NamesNothing (act Command.stop s t) tt e (stop_device-NamesNothing.at s t tt) in
    Transition.stops (λ i. record { pid = pid i; port = port i }) (stop-Files.at s t tt e)
act-Transition Command.restart s t e =
    let (pid, launched, (named, port)) = restart-NamesLaunched s t e in
    Transition.restarts pid launched (λ i. record { pid = named i; port = port i })
      (restart-Files.at s t tt e)
act-Transition Command.attach s t e =
    let old = lookup "pid" s.state in
    let (named, port) =
      Ends-ok (NamesBoth old) (act Command.attach s t) tt e ((attach-NamesBoth old).at s t refl) in
    Transition.attaches (λ i. record { pid = named i; port = port i }) (attach-Files.at s t tt e)
act-Transition Command.detach s t e =
    let old = lookup "pid" s.state in
    let (named, port) =
      Ends-ok (NamesNoPort old) (act Command.detach s t) tt e
        ((detach-NamesNoPort old).at s t refl) in
    Transition.detaches (λ i. record { pid = named i; port = port i }) (detach-Files.at s t tt e)
act-Transition Command.touch s t e =
    Transition.touches ((touch-Apart (λ d. d ≡ s.state)).state s t refl)
act-Transition Command.collect_debug s t e =
    Transition.collects ((collect_debug-Apart (λ d. d ≡ s.state)).state s t refl)
