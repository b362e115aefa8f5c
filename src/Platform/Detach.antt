-- ===== src/Platform/Detach.antt =====
-- Giving up the port: `detach`, and the release of the PC/SC context.
use canokey_usbip.Prelude.{
  String, ◌≡◌, true, false, Option, none, some, [], ◌∷◌, arith, eqb, ◌==◌, if◌then◌else◌,
}
use canokey_usbip.Host.{Event, History, Env, pure, raise, raise_if, gets, modify, finally, ◌>>=◌}
use canokey_usbip.Host.Calls
use canokey_usbip.Command.{run_command}
use canokey_usbip.Platform.State.{Platform}
use canokey_usbip.Platform.Preflight.{privileged}
use canokey_usbip.Platform.Pcsc.{masked, pcsc_readers}
use canokey_usbip.Platform.Attachment.{detach}

abbrev pub latest : History → Option Event
latest [] = none
latest (e ∷ t) = some e

module _ ⦃host : Env⦄ (p : Platform) (t : History) where
  -- With usbip installed, an owned attachment with a known port that is not empty is given up by one
  -- run of `usbip detach --port` with that port, with sudo unless by root and for at most 20 seconds, and the
  -- platform then owns no attachment and has neither a port nor a device path, whether the command
  -- works, fails, cannot start or takes too long; its other fields stay.
  pub detach_known :
      (port : String)
      → p.owns_attachment ≡ true
      → p.usb_port ≡ some port
      → (port == "") ≡ false
      → host.which "usbip" t ≡ true
      → ((detach p t).1 ≡ record p { owns_attachment = false; usb_port = none; device_path = none })
        × ((detach p t).2
            ≡ Event.run
                (if eqb host.euid 0
                  then "usbip" ∷ "detach" ∷ "--port" ∷ port ∷ []
                  else "sudo" ∷ "-n" ∷ "usbip" ∷ "detach" ∷ "--port" ∷ port ∷ [])
                none
                (some 20)
                false
              ∷ Event.which "usbip"
              ∷ t)
  unfolding detach privileged ◌>>=◌ gets Calls.which run_command Calls.run raise_if pure raise
      finally modify
  detach_known port owns known given there = ground arith

module _ ⦃host : Env⦄ {S : Type 0} (s : S) (t : History) where
  -- Once a PC/SC context is established, whatever the list calls answer, the last call is its release.
  pub pcsc_readers-release :
      host.pcsclite_found t ≡ true
      → host.pcsclite_loads (Event.find_pcsclite ∷ t) ≡ true
      → eqb (masked (host.establish (Event.load_pcsclite ∷ Event.find_pcsclite ∷ t))) 0 ≡ true
      → latest (pcsc_readers s t).2 ≡ some Event.release
  unfolding pcsc_readers ◌>>=◌ Calls.find_pcsclite Calls.load_pcsclite Calls.establish
      Calls.list_length Calls.list_buffer Calls.release raise_if pure raise finally
  pcsc_readers-release found loads fine = ground arith
