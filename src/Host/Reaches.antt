-- ===== src/Host/Reaches.antt =====
-- Where an action leaves the state: from a state in `I`, in `Q` if it returns, and in `R` if it raises.
use canokey_usbip.Prelude.{◌≢◌, ◌≡◌, refl, Bool, true, false, if◌then◌else◌}
use canokey_usbip.Host.Events.{Event, History}
use canokey_usbip.Host.Errors.{Exc}
use canokey_usbip.Host.Action.{
  Result, ok, raised, diverged, Exec, raise, continue, ◌>>=◌, recover, catch,
}
use canokey_usbip.Host.Within.{Within, Raises, any_error}

abbrev pub Ends : {S A : Type 0} → (S → Type 0) → (S → Type 0) → Result A × S × History → Type 0
Ends Q R (ok a, s, t) = Q s
Ends Q R (raised e, s, t) = R s
Ends Q R (diverged, s, t) = Unit

pub record Reaches {S A : Type 0} (I : S → Type 0) (Q R : S → Type 0) (m : Exec S A) : Type 0 where
  pub at : (s : S) (t : History) → I s → Ends Q R (m s t)

module _ {S A : Type 0} {I Q R : S → Type 0} where
  pub Reaches-if :
      (b : Bool) (m n : Exec S A)
      → Reaches I Q R m
      → Reaches I Q R n
      → Reaches I Q R (if b then m else n)
  Reaches-if true m n rm rn = rm
  Reaches-if false m n rm rn = rn

Reaches-continue :
    {S A B : Type 0} (I Q R : S → Type 0) (r : Result A) (f : A → Exec S B) (s : S) (t : History)
    → I s
    → R s
    → ((a : A) → Reaches I Q R (f a))
    → Ends Q R (continue r f s t)
unfolding continue
Reaches-continue I Q R (ok a) f s t h g k = (k a).at s t h
Reaches-continue I Q R (raised e) f s t h g k = g
Reaches-continue I Q R diverged f s t h g k = tt

-- First what keeps `I`, then what reaches `Q`.
pub Reaches-bind :
    {D S A B : Type 0} {I Q R : S → Type 0} {P : Event → Type 0} {E : Exc → Type 0} (m : Exec S A)
    (f : A → Exec S B)
    → Within D I P E m
    → ((s : S) → I s → R s)
    → ((a : A) → Reaches I Q R (f a))
    → Reaches I Q R (m >>= f)
unfolding ◌>>=◌
Reaches-bind {I} {Q} {R} m f w weaken k = record {
  at = λ s t h.
      let (r, s', t') = m s t in
      Reaches-continue I Q R r f s' t' (w.state s t h) (weaken s' (w.state s t h)) k;
}

-- First what leaves any state behind, where any will do for a raise.
pub Reaches-then :
    {S A B : Type 0} {Q R : S → Type 0} (m : Exec S A) (f : A → Exec S B)
    → ((s : S) → R s)
    → ((a : A) → Reaches (λ s. Unit {0}) Q R (f a))
    → Reaches (λ s. Unit {0}) Q R (m >>= f)
unfolding ◌>>=◌
Reaches-then {Q} {R} m f trivial k = record {
  at = λ s t h.
      let (r, s', t') = m s t in Reaches-continue (λ s. Unit {0}) Q R r f s' t' tt (trivial s') k;
}

Reaches-continue_quiet :
    {S A B : Type 0} (Q R : S → Type 0) (r : Result A) (f : A → Exec S B) (s : S) (t : History)
    → ((e : Exc) → r ≢ raised e)
    → ((a : A) → Reaches (λ s. Unit {0}) Q R (f a))
    → Ends Q R (continue r f s t)
unfolding continue
Reaches-continue_quiet Q R (ok a) f s t n k = (k a).at s t tt
Reaches-continue_quiet Q R (raised e) f s t n k = absurd (n e refl)
Reaches-continue_quiet Q R diverged f s t n k = tt

-- First what does not raise.
pub Reaches-quiet :
    {S A B : Type 0} {Q R : S → Type 0} (m : Exec S A) (f : A → Exec S B)
    → ((s : S) (t : History) (e : Exc) → (m s t).0 ≢ raised e)
    → ((a : A) → Reaches (λ s. Unit {0}) Q R (f a))
    → Reaches (λ s. Unit {0}) Q R (m >>= f)
unfolding ◌>>=◌
Reaches-quiet {Q} {R} m f quiet k = record {
  at = λ s t h. let (r, s', t') = m s t in Reaches-continue_quiet Q R r f s' t' (quiet s t) k;
}

Ends-kept :
    {S A : Type 0} {I Q R : S → Type 0} (r : Result A) (s : S) (t : History)
    → ((s : S) → I s → Q s)
    → ((s : S) → I s → R s)
    → I s
    → Ends Q R (r, s, t)
Ends-kept (ok a) s t q r i = q s i
Ends-kept (raised e) s t q r i = r s i
Ends-kept diverged s t q r i = tt

-- What keeps `I` ends in it, however it ends.
pub Ends-Within :
    {D S A : Type 0} {I Q R : S → Type 0} {P : Event → Type 0} {E : Exc → Type 0} (m : Exec S A)
    → Within D I P E m
    → ((s : S) → I s → Q s)
    → ((s : S) → I s → R s)
    → (s : S) (t : History) → I s
    → Ends Q R (m s t)
Ends-Within m w q r s t i = let (x, s', t') = m s t in Ends-kept x s' t' q r (w.state s t i)

Ends-raise_after :
    {S A : Type 0} (B : Type 0) (Q R : S → Type 0) (r : Result A) (e : Exc) (s : S) (t : History)
    → R s
    → Ends {A = B} Q R (continue r (λ _. raise e) s t)
unfolding continue raise
Ends-raise_after B Q R (ok a) e s t h = h
Ends-raise_after B Q R (raised x) e s t h = h
Ends-raise_after B Q R diverged e s t h = tt

-- What keeps `I`, and then a raise.
pub Ends-raise :
    {D S A : Type 0} (B : Type 0) {I R : S → Type 0} (Q : S → Type 0) {P : Event → Type 0}
    {E : Exc → Type 0} (m : Exec S A) (e : Exc)
    → Within D I P E m
    → ((s : S) → I s → R s)
    → (s : S) (t : History) → I s
    → Ends {A = B} Q R ((m >>= λ _. raise e) s t)
unfolding ◌>>=◌
Ends-raise B {R} Q m e w r s t i =
    let (x, s', t') = m s t in Ends-raise_after B Q R x e s' t' (r s' (w.state s t i))

Reaches-recover :
    {S A : Type 0} (D : Type 0) (I Q R : S → Type 0) (E : Exc → Type 0) (r : Result A)
    (handler : Exc → Exec S A) (s : S) (t : History)
    → Ends Q I (r, s, t)
    → Raises D E r
    → ((e : Exc) → E e → Reaches I Q R (handler e))
    → Ends Q R (recover r handler s t)
unfolding recover
Reaches-recover D I Q R E (ok a) handler s t h x k = h
Reaches-recover D I Q R E (raised e) handler s t h x k = (k e x).at s t h
Reaches-recover D I Q R E diverged handler s t h x k = tt

-- The handler goes on in `M`, where the block has raised.
pub Reaches-catch :
    {S A : Type 0} {I M Q R : S → Type 0} (D : Type 0) (E : Exc → Type 0) (m : Exec S A)
    (handler : Exc → Exec S A)
    → ((s : S) (t : History) → I s → Raises D E (m s t).0)
    → Reaches I Q M m
    → ((e : Exc) → E e → Reaches M Q R (handler e))
    → Reaches I Q R (catch m handler)
unfolding catch
Reaches-catch {I} {M} {Q} {R} D E m handler errors rm k = record {
  at = λ s t h.
      let (r, s', t') = m s t in
      Reaches-recover D M Q R E r handler s' t' (rm.at s t h) (errors s t h) k;
}

-- A handler for every exception.
pub Reaches-catch_all :
    {S A : Type 0} {I M Q R : S → Type 0} (m : Exec S A) (handler : Exc → Exec S A)
    → Reaches I Q M m
    → ((e : Exc) → Reaches M Q R (handler e))
    → Reaches I Q R (catch m handler)
Reaches-catch_all m handler rm k =
    Reaches-catch (Unit {0}) (λ e. Unit {0}) m handler (λ s t h. any_error (m s t).0) rm
      (λ e x. k e)

Ends-weaken :
    {S A : Type 0} (Q Q' R : S → Type 0) (r : Result A) (s : S) (t : History)
    → ((s : S) → Q s → Q' s)
    → Ends Q R (r, s, t)
    → Ends Q' R (r, s, t)
Ends-weaken Q Q' R (ok a) s t k h = k s h
Ends-weaken Q Q' R (raised e) s t k h = h
Ends-weaken Q Q' R diverged s t k h = tt

pub Reaches-weaken :
    {S A : Type 0} {I Q Q' R : S → Type 0} (m : Exec S A)
    → ((s : S) → Q s → Q' s)
    → Reaches I Q R m
    → Reaches I Q' R m
Reaches-weaken {Q} {Q'} {R} m k rm = record {
  at = λ s t h. let (r, s', t') = m s t in Ends-weaken Q Q' R r s' t' k (rm.at s t h);
}

-- A returning run has reached `Q`.
pub Ends-ok :
    {S A : Type 0} (Q : S → Type 0) (x : Result A × S × History) (a : A)
    → x.0 ≡ ok a
    → Ends Q (λ s. Unit) x
    → Q x.1
Ends-ok Q (ok b, s, t) a e h = h
Ends-ok Q (raised b, s, t) a e h = absurd (cc)
Ends-ok Q (diverged, s, t) a e h = absurd (cc)
