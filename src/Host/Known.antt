-- ===== src/Host/Known.antt =====
-- The rules for bind where the value of the first action is known to have a property.
use mathlib.Core.Path.{subst}
use canokey_usbip.Prelude.{◌≡◌, refl, Bool, true, false, if◌then◌else◌}
use canokey_usbip.Host.Events.{Event, History}
use canokey_usbip.Host.Errors.{Exc}
use canokey_usbip.Host.Action.{Result, ok, raised, diverged, Exec, pure, continue, zoom, ◌>>=◌}
use canokey_usbip.Host.Emits.{same, Extends-trans}
use canokey_usbip.Host.Within.{Within, Raises}
use canokey_usbip.Host.Leads.{Leads}
use canokey_usbip.Host.Reaches.{Ends, Reaches}

-- What an action returns has `R`.
abbrev pub Returns : {S A : Type 0} → (A → Type 0) → Exec S A → Type 0
Returns R m = Leads (λ a s t. R a) m

pub Returns-pure : {S A : Type 0} (R : A → Type 0) (a : A) → R a → Returns {S = S} R (pure a)
unfolding pure
Returns-pure {A} R a h = record { at = λ s t b e. let same : a ≡ b = cc in subst R same h }

pub Returns-zoom :
    {S Q A : Type 0} {R : A → Type 0} (get : S → Q) (put : Q → S → S) (m : Exec Q A)
    → Returns R m
    → Returns R (zoom get put m)
unfolding zoom
Returns-zoom get put m w = record { at = λ s t a e. w.at (get s) t a e }

module _ {D S A B : Type 0} {I : S → Type 0} {P : Event → Type 0} {E : Exc → Type 0} where
  Within-continue_known :
      (r : Result A) (f : A → Exec S B)
      → Raises D E r
      → ((a : A) → r ≡ ok a → Within D I P E (f a))
      → Within D I P E (continue r f)
  unfolding continue
  Within-continue_known (ok a) f x k = k a refl
  Within-continue_known (raised e) f x k = record {
    state = λ s t h. h;
    events = λ s t h. same;
    errors = λ s t h. x;
  }
  Within-continue_known diverged f x k = record {
    state = λ s t h. h;
    events = λ s t h. same;
    errors = λ s t h. x;
  }

  pub Within-bind_known :
      {R : A → Type 0} (m : Exec S A) (f : A → Exec S B)
      → Returns R m
      → Within D I P E m
      → ((a : A) → R a → Within D I P E (f a))
      → Within D I P E (m >>= f)
  unfolding ◌>>=◌
  Within-bind_known m f known wm wf =
      let rest = λ (s : S) (t : History) (h : I s).
        Within-continue_known (m s t).0 f (wm.errors s t h) (λ a e. wf a (known.at s t a e)) in
      record {
        state = λ s t h. let (r, s', t') = m s t in (rest s t h).state s' t' (wm.state s t h);
        events = λ s t h.
            let (r, s', t') = m s t in
            Extends-trans (wm.events s t h) ((rest s t h).events s' t' (wm.state s t h));
        errors = λ s t h. let (r, s', t') = m s t in (rest s t h).errors s' t' (wm.state s t h);
      }

-- From any state, first what returns something known.
module _ {S A B : Type 0} {Q R : S → Type 0} where
  Reaches-continue_known :
      (r : Result A) (f : A → Exec S B) (s : S) (t : History)
      → ((s : S) → R s)
      → ((a : A) → r ≡ ok a → Reaches (λ s. Unit {0}) Q R (f a))
      → Ends Q R (continue r f s t)
  unfolding continue
  Reaches-continue_known (ok a) f s t trivial k = (k a refl).at s t tt
  Reaches-continue_known (raised e) f s t trivial k = trivial s
  Reaches-continue_known diverged f s t trivial k = tt

  pub Reaches-then_known :
      {T : A → Type 0} (m : Exec S A) (f : A → Exec S B)
      → Returns T m
      → ((s : S) → R s)
      → ((a : A) → T a → Reaches (λ s. Unit {0}) Q R (f a))
      → Reaches (λ s. Unit {0}) Q R (m >>= f)
  unfolding ◌>>=◌
  Reaches-then_known m f known trivial k = record {
    at = λ s t h.
        let (r, s', t') = m s t in
        Reaches-continue_known r f s' t' trivial (λ a e. k a (known.at s t a e));
  }

Leads-continue_known :
    {S A B : Type 0} (Q : B → S → History → Type 0) (r : Result A) (f : A → Exec S B) (s : S)
    (t : History) (b : B)
    → ((a : A) → r ≡ ok a → Leads Q (f a))
    → (continue r f s t).0 ≡ ok b
    → Q b (continue r f s t).1 (continue r f s t).2
unfolding continue
Leads-continue_known Q (ok a) f s t b k e = (k a refl).at s t b e
Leads-continue_known Q (raised x) f s t b k e = absurd (cc)
Leads-continue_known Q diverged f s t b k e = absurd (cc)

-- First what returns something known.
pub Leads-bind_known :
    {S A B : Type 0} (R : A → Type 0) (Q : B → S → History → Type 0) (m : Exec S A)
    (f : A → Exec S B)
    → Returns R m
    → ((a : A) → R a → Leads Q (f a))
    → Leads Q (m >>= f)
unfolding ◌>>=◌
Leads-bind_known R Q m f known k = record {
  at = λ s t b e.
      let (r, s', t') = m s t in
      Leads-continue_known Q r f s' t' b (λ a i. k a (known.at s t a i)) e;
}

pub Returns-bind :
    {S A B : Type 0} (R : A → Type 0) (Q : B → Type 0) (m : Exec S A) (f : A → Exec S B)
    → Returns R m
    → ((a : A) → R a → Returns Q (f a))
    → Returns Q (m >>= f)
Returns-bind R Q m f known k = Leads-bind_known R (λ b s t. Q b) m f known k

Leads-continue_pure :
    {S A B : Type 0} (Q : A → S → History → Type 0) (R : B → S → History → Type 0) (r : Result A)
    (f : A → B) (s : S) (t : History) (b : B)
    → ((a : A) → Q a s t → R (f a) s t)
    → ((a : A) → r ≡ ok a → Q a s t)
    → (continue r (λ a. pure (f a)) s t).0 ≡ ok b
    → R b (continue r (λ a. pure (f a)) s t).1 (continue r (λ a. pure (f a)) s t).2
unfolding continue pure
Leads-continue_pure Q R (ok a) f s t b k h e =
    let same : f a ≡ b = cc in subst (λ c. R c s t) same (k a (h a refl))
Leads-continue_pure Q R (raised x) f s t b k h e = absurd (cc)
Leads-continue_pure Q R diverged f s t b k h e = absurd (cc)

-- Last a value from what has been reached.
pub Leads-pure :
    {S A B : Type 0} (Q : A → S → History → Type 0) (R : B → S → History → Type 0) (m : Exec S A)
    (f : A → B)
    → ((a : A) (s : S) (t : History) → Q a s t → R (f a) s t)
    → Leads Q m
    → Leads R (m >>= λ a. pure (f a))
unfolding ◌>>=◌
Leads-pure Q R m f k w = record {
  at = λ s t b e.
      let (r, s', t') = m s t in
      Leads-continue_pure Q R r f s' t' b (λ a q. k a s' t' q) (λ a i. w.at s t a i) e;
}

pub Leads-mono :
    {S A : Type 0} {Q R : A → S → History → Type 0} (m : Exec S A)
    → ((a : A) (s : S) (t : History) → Q a s t → R a s t)
    → Leads Q m
    → Leads R m
Leads-mono m k w = record { at = λ s t a e. k a _ _ (w.at s t a e) }

pub Returns-if :
    {S A : Type 0} (R : A → Type 0) (b : Bool) (m n : Exec S A)
    → Returns R m
    → Returns R n
    → Returns R (if b then m else n)
Returns-if R true m n wm wn = wm
Returns-if R false m n wm wn = wn

pub Returns-mono :
    {S A : Type 0} {R Q : A → Type 0} (m : Exec S A)
    → ((a : A) → R a → Q a)
    → Returns R m
    → Returns Q m
Returns-mono m k w = record { at = λ s t a e. k a (w.at s t a e) }
