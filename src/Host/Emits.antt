-- ===== src/Host/Emits.antt =====
-- What an action may call: a predicate on events that holds of every event it adds to the history,
-- whether it returns, raises or diverges.
use canokey_usbip.Prelude.{◌∷◌}
use canokey_usbip.Host.Events.{Event, History}
use canokey_usbip.Host.Action.{Exec, pure}

-- `u` is `t` with further events, all in `P`.
pub data Extends (P : Event → Type 0) (t : History) : History → Type 0 where
  same : Extends P t t
  later : {u : History} (e : Event) → P e → Extends P t u → Extends P t (e ∷ u)

pub Extends-trans :
    {P : Event → Type 0} {t u v : History} → Extends P t u → Extends P u v → Extends P t v
Extends-trans x same = x
Extends-trans x (later e p y) = later e p (Extends-trans x y)

pub Extends-mono :
    {P Q : Event → Type 0} {t u : History}
    → ((e : Event) → P e → Q e)
    → Extends P t u
    → Extends Q t u
Extends-mono f same = same
Extends-mono f (later e p x) = later e (f e p) (Extends-mono f x)

pub record Emits {S A : Type 0} (P : Event → Type 0) (m : Exec S A) : Type 0 where
  pub at : (s : S) (t : History) → Extends P t (m s t).2

module _ {S A : Type 0} {P : Event → Type 0} where
  pub Emits-pure : (a : A) → Emits P (pure {S = S} a)
  unfolding pure
  Emits-pure a = record { at = λ s t. same }
