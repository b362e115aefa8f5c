-- ===== src/Host/Inversion.antt =====
-- What a block that returns has gone through.
use canokey_usbip.Prelude.{◌≡◌, refl}
use canokey_usbip.Host.Events.{History}
use canokey_usbip.Host.Action.{Result, ok, raised, diverged, Exec, continue, ◌>>=◌}

module _ {S A B : Type 0} where
  continue-ok :
      (y : Result A × S × History) (f : A → Exec S B) (b : B)
      → (continue y.0 f y.1 y.2).0 ≡ ok b
      → (a : A) × (s' : S) × (t' : History) × (y ≡ (ok a, s', t'))
        × (continue y.0 f y.1 y.2 ≡ f a s' t')
  unfolding continue
  continue-ok (ok a, s', t') f b e = (a, s', t', refl, refl)
  continue-ok (raised x, s', t') f b e = absurd (cc)
  continue-ok (diverged, s', t') f b e = absurd (cc)

  -- The first action has returned, and the block goes on from where it left.
  pub bind-ok :
      (m : Exec S A) (f : A → Exec S B) (s : S) (t : History) (b : B)
      → ((m >>= f) s t).0 ≡ ok b
      → (a : A) × (s' : S) × (t' : History) × (m s t ≡ (ok a, s', t')) × ((m >>= f) s t ≡ f a s' t')
  unfolding ◌>>=◌
  bind-ok m f s t b e = continue-ok (m s t) f b e
