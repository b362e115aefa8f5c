-- ===== src/Host/Within.antt =====
-- What an action stays within: from a state in `I` it reaches a state in `I`, adds only events in `P`,
-- and raises only exceptions in `E`. One rule for each way to build an action.
use canokey_usbip.Prelude.{◌≢◌, Bool, true, false, if◌then◌else◌}
use canokey_usbip.Host.Events.{Event, History}
use canokey_usbip.Host.Errors.{Exc}
use canokey_usbip.Host.Action.{
  Result, ok, raised, diverged, Exec, pure, raise, diverge, gets, modify, raise_if, continue, ◌>>=◌,
  recover, catch, resume, after, finally, zoom,
}
use canokey_usbip.Host.Calls.{call}
use canokey_usbip.Host.Emits.{Extends, same, later, Extends-trans, Extends-mono}

-- The exception of a result, if it has one, is in `E`, and it diverges only if `D` holds: with the empty
-- type for `D`, not at all.
abbrev pub Raises {ℓ} : {A : Type ℓ} → Type 0 → (Exc → Type 0) → Result A → Type 0
Raises D E (ok a) = Unit
Raises D E (raised e) = E e
Raises D E diverged = D

pub record Within {S A : Type 0} (D : Type 0) (I : S → Type 0) (P : Event → Type 0)
    (E : Exc → Type 0) (m : Exec S A) : Type 0 where
  pub state : (s : S) (t : History) → I s → I (m s t).1
  pub events : (s : S) (t : History) → I s → Extends P t (m s t).2
  pub errors : (s : S) (t : History) → I s → Raises D E (m s t).0

module _ {D S A : Type 0} {I : S → Type 0} {P : Event → Type 0} {E : Exc → Type 0} where
  pub Within-pure : (a : A) → Within D I P E (pure {S = S} a)
  unfolding pure
  Within-pure a = record { state = λ s t h. h; events = λ s t h. same; errors = λ s t h. tt }

  pub Within-raise : (e : Exc) → E e → Within D I P E (raise {S = S} {A = A} e)
  unfolding raise
  Within-raise e p = record { state = λ s t h. h; events = λ s t h. same; errors = λ s t h. p }

  pub Within-diverge : D → Within D I P E (diverge {S = S} {A = A})
  unfolding diverge
  Within-diverge d = record { state = λ s t h. h; events = λ s t h. same; errors = λ s t h. d }

  pub Within-gets : (f : S → A) → Within D I P E (gets f)
  unfolding gets
  Within-gets f = record { state = λ s t h. h; events = λ s t h. same; errors = λ s t h. tt }

  pub Within-call :
      (e : Event) (answer : History → Result A)
      → P e
      → ((t : History) → Raises D E (answer t))
      → Within D I P E (call {S = S} e answer)
  unfolding call
  Within-call e answer p r = record {
    state = λ s t h. h;
    events = λ s t h. later e p same;
    errors = λ s t h. r t;
  }

  pub Within-if :
      (b : Bool) (m n : Exec S A)
      → Within D I P E m
      → Within D I P E n
      → Within D I P E (if b then m else n)
  Within-if true m n wm wn = wm
  Within-if false m n wm wn = wn

module _ {D S : Type 0} {I : S → Type 0} {P : Event → Type 0} {E : Exc → Type 0} where
  pub Within-modify : (f : S → S) → ((s : S) → I s → I (f s)) → Within D I P E (modify f)
  unfolding modify
  Within-modify f k = record {
    state = λ s t h. k s h;
    events = λ s t h. same;
    errors = λ s t h. tt;
  }

  pub Within-raise_if : (b : Bool) (e : Exc) → E e → Within D I P E (raise_if {S = S} b e)
  unfolding raise_if
  Within-raise_if true e p = Within-raise e p
  Within-raise_if false e p = Within-pure tt

module _ {D S A B : Type 0} {I : S → Type 0} {P : Event → Type 0} {E : Exc → Type 0} where
  Within-continue :
      (r : Result A) (f : A → Exec S B)
      → Raises D E r
      → ((a : A) → Within D I P E (f a))
      → Within D I P E (continue r f)
  unfolding continue
  Within-continue (ok a) f x wf = wf a
  Within-continue (raised e) f x wf = record {
    state = λ s t h. h;
    events = λ s t h. same;
    errors = λ s t h. x;
  }
  Within-continue diverged f x wf = record {
    state = λ s t h. h;
    events = λ s t h. same;
    errors = λ s t h. x;
  }

  pub Within-bind :
      (m : Exec S A) (f : A → Exec S B)
      → Within D I P E m
      → ((a : A) → Within D I P E (f a))
      → Within D I P E (m >>= f)
  unfolding ◌>>=◌
  Within-bind m f wm wf = record {
    state = λ s t h.
        let (r, s', t') = m s t in
        (Within-continue r f (wm.errors s t h) wf).state s' t' (wm.state s t h);
    events = λ s t h.
        let (r, s', t') = m s t in
        Extends-trans (wm.events s t h)
          ((Within-continue r f (wm.errors s t h) wf).events s' t' (wm.state s t h));
    errors = λ s t h.
        let (r, s', t') = m s t in
        (Within-continue r f (wm.errors s t h) wf).errors s' t' (wm.state s t h);
  }

module _ {D S A : Type 0} {I : S → Type 0} {P : Event → Type 0} {E F : Exc → Type 0} where
  Within-recover :
      (r : Result A) (handler : Exc → Exec S A)
      → Raises D F r
      → ((e : Exc) → F e → Within D I P E (handler e))
      → Within D I P E (recover r handler)
  unfolding recover
  Within-recover (ok a) handler x wh = record {
    state = λ s t h. h;
    events = λ s t h. same;
    errors = λ s t h. tt;
  }
  Within-recover (raised e) handler x wh = wh e x
  Within-recover diverged handler x wh = record {
    state = λ s t h. h;
    events = λ s t h. same;
    errors = λ s t h. x;
  }

  pub Within-catch :
      (m : Exec S A) (handler : Exc → Exec S A)
      → Within D I P F m
      → ((e : Exc) → F e → Within D I P E (handler e))
      → Within D I P E (catch m handler)
  unfolding catch
  Within-catch m handler wm wh = record {
    state = λ s t h.
        let (r, s', t') = m s t in
        (Within-recover r handler (wm.errors s t h) wh).state s' t' (wm.state s t h);
    events = λ s t h.
        let (r, s', t') = m s t in
        Extends-trans (wm.events s t h)
          ((Within-recover r handler (wm.errors s t h) wh).events s' t' (wm.state s t h));
    errors = λ s t h.
        let (r, s', t') = m s t in
        (Within-recover r handler (wm.errors s t h) wh).errors s' t' (wm.state s t h);
  }

Raises-resume :
    (D : Type 0) (E : Exc → Type 0) {A : Type 0} (r : Result A) (u : Result (Unit {0}))
    → Raises D E r
    → Raises D E u
    → Raises D E (resume r u)
unfolding resume
Raises-resume D E r (ok _) x y = x
Raises-resume D E r (raised e) x y = y
Raises-resume D E r diverged x y = y

module _ {D S A : Type 0} {I : S → Type 0} {P : Event → Type 0} {E : Exc → Type 0} where
  Within-after :
      (r : Result A) (block : Exec S (Unit {0}))
      → Raises D E r
      → Within D I P E block
      → Within D I P E (after r block)
  unfolding after
  Within-after (ok a) block x w = record {
    state = w.state;
    events = w.events;
    errors = λ s t h. Raises-resume D E (ok a) (block s t).0 tt (w.errors s t h);
  }
  Within-after (raised e) block x w = record {
    state = w.state;
    events = w.events;
    errors = λ s t h. Raises-resume D E (raised e) (block s t).0 x (w.errors s t h);
  }
  Within-after diverged block x w = record {
    state = λ s t h. h;
    events = λ s t h. same;
    errors = λ s t h. x;
  }

  pub Within-finally :
      (m : Exec S A) (block : Exec S (Unit {0}))
      → Within D I P E m
      → Within D I P E block
      → Within D I P E (finally m block)
  unfolding finally
  Within-finally m block wm wb = record {
    state = λ s t h.
        let (r, s', t') = m s t in
        (Within-after r block (wm.errors s t h) wb).state s' t' (wm.state s t h);
    events = λ s t h.
        let (r, s', t') = m s t in
        Extends-trans (wm.events s t h)
          ((Within-after r block (wm.errors s t h) wb).events s' t' (wm.state s t h));
    errors = λ s t h.
        let (r, s', t') = m s t in
        (Within-after r block (wm.errors s t h) wb).errors s' t' (wm.state s t h);
  }

pub Within-mono :
    {D S A : Type 0} {I : S → Type 0} {P P' : Event → Type 0} {E : Exc → Type 0} (m : Exec S A)
    → ((e : Event) → P e → P' e)
    → Within D I P E m
    → Within D I P' E m
Within-mono m wider w = record {
  state = w.state;
  events = λ s t h. Extends-mono wider (w.events s t h);
  errors = w.errors;
}

-- A method of an object that the state holds, where the state's invariant does not look at it.
module _ {D S Q A : Type 0} {I : S → Type 0} {J : Q → Type 0} {P P' : Event → Type 0}
    {E : Exc → Type 0} where
  pub Within-zoom :
      (get : S → Q) (put : Q → S → S) (m : Exec Q A)
      → Within D J P' E m
      → ((s : S) → I s → J (get s))
      → ((q : Q) (s : S) → I s → J q → I (put q s))
      → ((e : Event) → P' e → P e)
      → Within D I P E (zoom get put m)
  unfolding zoom
  Within-zoom get put m w inside outside wider = record {
    state = λ s t h. outside (m (get s) t).1 s h (w.state (get s) t (inside s h));
    events = λ s t h. Extends-mono wider (w.events (get s) t (inside s h));
    errors = λ s t h. w.errors (get s) t (inside s h);
  }

-- A handler that passes on the exceptions that it does not name: the predicate is kept.
module _ {D S A : Type 0} {I : S → Type 0} {P : Event → Type 0} {E : Exc → Type 0} where
  pub Within-catch_same :
      (m : Exec S A) (handler : Exc → Exec S A)
      → Within D I P E m
      → ((e : Exc) → E e → Within D I P E (handler e))
      → Within D I P E (catch m handler)
  Within-catch_same m handler wm wh = Within-catch m handler wm wh

pub any_error : {A : Type 0} (r : Result A) → Raises (Unit {0}) (λ e. Unit {0}) r
any_error (ok a) = tt
any_error (raised e) = tt
any_error diverged = tt

ended_result : {A : Type 0} (E : Exc → Type 0) (r : Result A) → Raises ⊥ E r → r ≢ diverged
ended_result E (ok a) x e = cc
ended_result E (raised e') x e = cc
ended_result E diverged x e = absurd x

-- What may not diverge has ended.
pub ended :
    {S A : Type 0} (I : S → Type 0) {P : Event → Type 0} {E : Exc → Type 0} (m : Exec S A)
    → Within ⊥ I P E m
    → (s : S) (t : History) → I s
    → (m s t).0 ≢ diverged
ended I m w s t i = ended_result _ (m s t).0 (w.errors s t i)

pub ruleset within_rules = (
  Within-pure, Within-raise, Within-gets, Within-call, Within-if, Within-modify, Within-raise_if,
  Within-bind, Within-finally, Within-catch_same,
)
