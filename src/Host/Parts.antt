-- ===== src/Host/Parts.antt =====
-- What an action reaches through a look at the state, in a part of it, and before what stays there.
use canokey_usbip.Prelude.{◌≡◌, refl}
use canokey_usbip.Host.Events.{Event, History}
use canokey_usbip.Host.Errors.{Exc}
use canokey_usbip.Host.Action.{Result, ok, raised, diverged, Exec, gets, continue, zoom, ◌>>=◌}
use canokey_usbip.Host.Within.{Within}
use canokey_usbip.Host.Reaches.{Ends, Ends-Within, Reaches}

-- What follows a look at the state knows what was seen.
pub Reaches-look :
    {S A B : Type 0} {Q R : S → Type 0} (get : S → A) (f : A → Exec S B)
    → ((a : A) → Reaches (λ s. get s ≡ a) Q R (f a))
    → Reaches (λ s. Unit {0}) Q R (gets get >>= f)
unfolding ◌>>=◌ gets continue
Reaches-look get f k = record { at = λ s t h. (k (get s)).at s t refl }

module _ {S P A : Type 0} (get : S → P) (put : P → S → S) {Q R : P → Type 0}
    (Q' R' : S → Type 0) where
  Ends-zoom :
      (r : Result A) (p : P) (s : S) (t : History)
      → ((p : P) (s : S) → Q p → Q' (put p s))
      → ((p : P) (s : S) → R p → R' (put p s))
      → Ends Q R (r, p, t)
      → Ends Q' R' (r, put p s, t)
  Ends-zoom (ok a) p s t q w h = q p s h
  Ends-zoom (raised e) p s t q w h = w p s h
  Ends-zoom diverged p s t q w h = tt

  -- A method of an object that the state holds.
  pub Reaches-zoom :
      {I : P → Type 0} (m : Exec P A)
      → ((p : P) (s : S) → Q p → Q' (put p s))
      → ((p : P) (s : S) → R p → R' (put p s))
      → Reaches I Q R m
      → Reaches (λ s. I (get s)) Q' R' (zoom get put m)
  unfolding zoom
  Reaches-zoom m q w rm = record {
    at = λ s t h. let (r, p, t') = m (get s) t in Ends-zoom r p s t' q w (rm.at (get s) t h);
  }

module _ {S A B : Type 0} {Q R : S → Type 0} where
  Ends-before :
      {D : Type 0} {P : Event → Type 0} {E : Exc → Type 0} (r : Result A) (f : A → Exec S B) (s : S)
      (t : History)
      → ((s : S) → Q s → R s)
      → ((a : A) → Within D Q P E (f a))
      → Ends Q R (r, s, t)
      → Ends Q R (continue r f s t)
  unfolding continue
  Ends-before (ok a) f s t weaken k h = Ends-Within (f a) (k a) (λ s i. i) weaken s t h
  Ends-before (raised e) f s t weaken k h = h
  Ends-before diverged f s t weaken k h = tt

  -- First what reaches `Q`, then what stays there.
  pub Reaches-before :
      {D : Type 0} {I : S → Type 0} {P : Event → Type 0} {E : Exc → Type 0} (m : Exec S A)
      (f : A → Exec S B)
      → ((s : S) → Q s → R s)
      → Reaches I Q R m
      → ((a : A) → Within D Q P E (f a))
      → Reaches I Q R (m >>= f)
  unfolding ◌>>=◌
  Reaches-before m f weaken rm k = record {
    at = λ s t h. let (r, s', t') = m s t in Ends-before r f s' t' weaken k (rm.at s t h);
  }
