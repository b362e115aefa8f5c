-- ===== src/Platform/GivingUp.antt =====
-- `detach` on every path: when an attachment is still owned afterwards.
use mathlib.Core.Logic.{◌⊎◌}
use canokey_usbip.Prelude.{
  ◌≡◌, refl, String, Bool, true, false, Bool-cases, Option, none, some, inl, inr, ◌==◌, ◌∷◌,
}
use canokey_usbip.Host.{Event, Env, History, ◌>>=◌, pure, continue}
use canokey_usbip.Host.Calls
use canokey_usbip.Host.Calls.{which}
use canokey_usbip.Host.Plain.{free, Anything}
use canokey_usbip.Host.Reaches.{Reaches, Reaches-bind}
use canokey_usbip.Host.Finals.{Reaches-finally_set}
use canokey_usbip.Host.Parts.{Reaches-look}
use canokey_usbip.Platform.State.{Platform}
use canokey_usbip.Platform.Ports.{find_usbip_port}
use canokey_usbip.Platform.Attachment.{released, detach_port, known_port, detach_owned, detach}
use canokey_usbip.Platform.Reading.{find_usbip_port-Gentle}

-- No port is recorded: None, or the empty text.
abbrev IsUnknown : Option String → Type 0
IsUnknown none = Unit
IsUnknown (some port) = (port == "") ≡ true

-- The platform owns no attachment, or none with a port that it knows.
abbrev pub HasGivenUp : Platform → Type 0
HasGivenUp p = (p.owns_attachment ≡ false) ⊎ IsUnknown p.usb_port

abbrev HasNoPort : Platform → Type 0
HasNoPort p = IsUnknown p.usb_port

module _ ⦃host : Env⦄ where
  detach_port-HasGivenUp :
      {I : Platform → Type 0} (port : String)
      → Reaches I HasGivenUp HasGivenUp (detach_port (some port))
  unfolding detach_port
  detach_port-HasGivenUp port = Reaches-finally_set _ released (λ p. inl refl)

  found-HasGivenUp : (o : Option String) → Reaches HasNoPort HasGivenUp HasGivenUp (detach_port o)
  unfolding detach_port pure
  found-HasGivenUp none = record { at = λ p t h. inr h }
  found-HasGivenUp (some port) = detach_port-HasGivenUp port

  -- With no port recorded, whatever the search finds.
  search-HasGivenUp : Reaches HasNoPort HasGivenUp HasGivenUp (find_usbip_port >>= detach_port)
  search-HasGivenUp =
      Reaches-bind find_usbip_port detach_port (find_usbip_port-Gentle {D = Unit {0}} free)
        (λ p h. inr h) found-HasGivenUp

  known_port-HasGivenUp :
      (o : Option String)
      → Reaches (λ p. p.usb_port ≡ o) HasGivenUp HasGivenUp (known_port o >>= detach_port)
  unfolding known_port ◌>>=◌ pure continue
  known_port-HasGivenUp none = record { at = λ p t h. search-HasGivenUp.at p t (rw h tt) }
  known_port-HasGivenUp (some port) = record {
    at = λ p t h. elim (Bool-cases (port == "")) [
      | inl e ↦ rw e (search-HasGivenUp.at p t (rw h e))
      | inr e ↦ rw e ((detach_port-HasGivenUp {I = Anything} port).at p t tt)
    ];
  }

  -- With usbip installed.
  module _ (installed : (t : History) → host.which "usbip" t ≡ true) where
    detach_owned-HasGivenUp :
        (b : Bool) → Reaches (λ p. p.owns_attachment ≡ b) HasGivenUp HasGivenUp (detach_owned b)
    unfolding detach_owned pure Calls.which ◌>>=◌ continue
    detach_owned-HasGivenUp false = record { at = λ p t h. inl h }
    detach_owned-HasGivenUp true = record {
      at = λ p t h. rw (installed t) (
          (Reaches-look (λ p. p.usb_port) (λ o. known_port o >>= detach_port)
              known_port-HasGivenUp).at
            p (Event.which "usbip" ∷ t) tt);
    }

    pub detach-HasGivenUp : Reaches Anything HasGivenUp HasGivenUp detach
    unfolding detach
    detach-HasGivenUp = Reaches-look _ _ detach_owned-HasGivenUp
