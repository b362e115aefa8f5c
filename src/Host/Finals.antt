-- ===== src/Host/Finals.antt =====
-- What an action reaches by what it does last: a `finally` block, or a look at the state.
use canokey_usbip.Host.Events.{Event, History}
use canokey_usbip.Host.Errors.{Exc}
use canokey_usbip.Host.Action.{
  Result, ok, raised, diverged, Exec, gets, modify, continue, resume, after, finally, ◌>>=◌,
}
use canokey_usbip.Host.Within.{Within}
use canokey_usbip.Host.Reaches.{Ends, Reaches}

abbrev Any : {S : Type 0} → S → Type 0
Any s = Unit {0}

Ends-resume_block :
    {S A : Type 0} (Q : S → Type 0) (r : Result A) (u : Result (Unit {0})) (s : S) (t : History)
    → Ends Q Any (u, s, t)
    → Ends Q Any (resume r u, s, t)
unfolding resume
Ends-resume_block Q (ok a) (ok _) s t h = h
Ends-resume_block Q (raised e) (ok _) s t h = tt
Ends-resume_block Q diverged (ok _) s t h = tt
Ends-resume_block Q r (raised e) s t h = tt
Ends-resume_block Q r diverged s t h = tt

module _ {S A : Type 0} {I : S → Type 0} (Q : S → Type 0) where
  Ends-after :
      (r : Result A) (block : Exec S (Unit {0})) (s : S) (t : History)
      → I s
      → Reaches I Q Any block
      → Ends Q Any (after r block s t)
  unfolding after
  Ends-after (ok a) block s t h w =
      let (u, s', t') = block s t in Ends-resume_block Q (ok a) u s' t' (w.at s t h)
  Ends-after (raised e) block s t h w =
      let (u, s', t') = block s t in Ends-resume_block Q (raised e) u s' t' (w.at s t h)
  Ends-after diverged block s t h w = tt

  -- A `finally` block that reaches `Q`, after what keeps `I`.
  pub Reaches-finally_block :
      {D : Type 0} {P : Event → Type 0} {E : Exc → Type 0} (m : Exec S A)
      (block : Exec S (Unit {0}))
      → Within D I P E m
      → Reaches I Q Any block
      → Reaches I Q Any (finally m block)
  unfolding finally
  Reaches-finally_block m block wm w = record {
    at = λ s t h. let (r, s', t') = m s t in Ends-after r block s' t' (wm.state s t h) w;
  }

Ends-gets :
    {S A B : Type 0} (Q : S → Type 0) (f : S → B) (r : Result A) (s : S) (t : History)
    → Ends Q Any (r, s, t)
    → Ends Q Any (continue r (λ _. gets f) s t)
unfolding continue gets
Ends-gets Q f (ok a) s t h = h
Ends-gets Q f (raised e) s t h = tt
Ends-gets Q f diverged s t h = tt

-- Last a look at the state.
pub Reaches-gets :
    {S A B : Type 0} {I Q : S → Type 0} (m : Exec S A) (f : S → B)
    → Reaches I Q Any m
    → Reaches I Q Any (m >>= λ _. gets f)
unfolding ◌>>=◌
Reaches-gets {Q} m f w = record {
  at = λ s t h. let (r, s', t') = m s t in Ends-gets Q f r s' t' (w.at s t h);
}

Ends-resume :
    {S A : Type 0} (Q : S → Type 0) (r : Result A) (u : Result (Unit {0})) (s : S) (t : History)
    → Q s
    → Ends Q (λ s. Unit) (resume r u, s, t)
unfolding resume
Ends-resume Q (ok a) (ok _) s t q = q
Ends-resume Q (raised e) (ok _) s t q = tt
Ends-resume Q diverged (ok _) s t q = tt
Ends-resume Q r (raised e) s t q = tt
Ends-resume Q r diverged s t q = tt

Ends-resume_raised :
    {S : Type 0} (A : Type 0) (Q : S → Type 0) (e : Exc) (u : Result (Unit {0})) (s : S)
    (t : History)
    → Ends {A = A} Q (λ s. Unit) (resume (raised e) u, s, t)
unfolding resume
Ends-resume_raised A Q e (ok _) s t = tt
Ends-resume_raised A Q e (raised e') s t = tt
Ends-resume_raised A Q e diverged s t = tt

Reaches-after :
    {D S A : Type 0} (Q : S → Type 0) (P : Event → Type 0) (E : Exc → Type 0) (r : Result A)
    (block : Exec S (Unit {0})) (s : S) (t : History)
    → Ends Q (λ s. Unit) (r, s, t)
    → Within D Q P E block
    → Ends Q (λ s. Unit) (after r block s t)
unfolding after
Reaches-after Q P E (ok a) block s t h w =
    let (u, s', t') = block s t in Ends-resume Q (ok a) u s' t' (w.state s t h)
Reaches-after Q P E (raised e) block s t h w =
    let (u, s', t') = block s t in Ends-resume_raised _ Q e u s' t'
Reaches-after Q P E diverged block s t h w = tt

-- A `finally` block that keeps `Q`, after what reaches `Q`.
pub Reaches-finally :
    {D S A : Type 0} {I Q : S → Type 0} {P : Event → Type 0} {E : Exc → Type 0} (m : Exec S A)
    (block : Exec S (Unit {0}))
    → Reaches I Q (λ s. Unit) m
    → Within D Q P E block
    → Reaches I Q (λ s. Unit) (finally m block)
unfolding finally
Reaches-finally {Q} {P} {E} m block rm w = record {
  at = λ s t h. let (r, s', t') = m s t in Reaches-after Q P E r block s' t' (rm.at s t h) w;
}

Ends-after_set :
    {S A : Type 0} (Q : S → Type 0) (f : S → S) (r : Result A) (s : S) (t : History)
    → ((s : S) → Q (f s))
    → Ends Q Q (after r (modify f) s t)
unfolding after resume modify
Ends-after_set Q f (ok a) s t k = k s
Ends-after_set Q f (raised e) s t k = k s
Ends-after_set Q f diverged s t k = tt

-- A `finally` block that sets the state.
pub Reaches-finally_set :
    {S A : Type 0} {I Q : S → Type 0} (m : Exec S A) (f : S → S)
    → ((s : S) → Q (f s))
    → Reaches I Q Q (finally m (modify f))
unfolding finally
Reaches-finally_set {Q} m f k = record {
  at = λ s t h. let (r, s', t') = m s t in Ends-after_set Q f r s' t' k;
}
