-- ===== src/Host/Throughout.antt =====
-- What an action has done when it returns, from a state in `I` and after calls in `P` only: a relation of
-- the history before those calls, the state and the history.
use canokey_usbip.Prelude.{◌≡◌}
use canokey_usbip.Host.Events.{Event, History}
use canokey_usbip.Host.Errors.{Exc}
use canokey_usbip.Host.Action.{
  Result, ok, raised, diverged, Exec, gets, continue, after, finally, ◌>>=◌,
}
use canokey_usbip.Host.Emits.{Extends, Extends-trans}
use canokey_usbip.Host.Leads.{Leads-continue_gets, resumed}
use canokey_usbip.Host.Within.{Within}

pub record Throughout {S A : Type 0} (P : Event → Type 0) (I : S → Type 0)
    (Q : History → S → History → Type 0) (m : Exec S A) : Type 0 where
  pub at :
      (u : History) (s : S) (t : History) (a : A)
      → I s
      → Extends P u t
      → (m s t).0 ≡ ok a
      → Q u (m s t).1 (m s t).2

module _ {S A B : Type 0} {P : Event → Type 0} {I : S → Type 0}
    {Q : History → S → History → Type 0} where
  Throughout-continue :
      (r : Result A) (f : A → Exec S B) (u : History) (s : S) (t : History) (b : B)
      → I s
      → Extends P u t
      → ((a : A) → Throughout P I Q (f a))
      → (continue r f s t).0 ≡ ok b
      → Q u (continue r f s t).1 (continue r f s t).2
  unfolding continue
  Throughout-continue (ok a) f u s t b i x k e = (k a).at u s t b i x e
  Throughout-continue (raised y) f u s t b i x k e = absurd (cc)
  Throughout-continue diverged f u s t b i x k e = absurd (cc)

  pub Throughout-bind :
      {D : Type 0} {E : Exc → Type 0} (m : Exec S A) (f : A → Exec S B)
      → Within D I P E m
      → ((a : A) → Throughout P I Q (f a))
      → Throughout P I Q (m >>= f)
  unfolding ◌>>=◌
  Throughout-bind m f w k = record {
    at = λ u s t b i x e.
        let (r, s', t') = m s t in
        Throughout-continue r f u s' t' b (w.state s t i) (Extends-trans x (w.events s t i)) k e;
  }

  -- Last a look at the state.
  pub Throughout-gets :
      (m : Exec S A) (f : S → B) → Throughout P I Q m → Throughout P I Q (m >>= λ _. gets f)
  unfolding ◌>>=◌
  Throughout-gets m f w = record {
    at = λ u s t b i x e.
        let (r, s', t') = m s t in
        Leads-continue_gets (Q u) r f s' t' b (λ a y. w.at u s t a i x y) e;
  }

module _ {S A : Type 0} {P : Event → Type 0} {I : S → Type 0}
    {Q : History → S → History → Type 0} where
  Throughout-after :
      (r : Result A) (block : Exec S (Unit {0})) (u : History) (s : S) (t : History) (a : A)
      → I s
      → Extends P u t
      → Throughout P I Q block
      → (after r block s t).0 ≡ ok a
      → Q u (after r block s t).1 (after r block s t).2
  unfolding after
  Throughout-after (ok b) block u s t a i x w e =
      let (v, s', t') = block s t in resumed (Q u) (ok b) v s' t' a (w.at u s t tt i x) e
  Throughout-after (raised y) block u s t a i x w e =
      let (v, s', t') = block s t in resumed (Q u) (raised y) v s' t' a (w.at u s t tt i x) e
  Throughout-after diverged block u s t a i x w e = absurd (cc)

  -- By its `finally` block.
  pub Throughout-finally :
      {D : Type 0} {E : Exc → Type 0} (m : Exec S A) (block : Exec S (Unit {0}))
      → Within D I P E m
      → Throughout P I Q block
      → Throughout P I Q (finally m block)
  unfolding finally
  Throughout-finally m block w k = record {
    at = λ u s t a i x e.
        let (r, s', t') = m s t in
        Throughout-after r block u s' t' a (w.state s t i) (Extends-trans x (w.events s t i)) k e;
  }
