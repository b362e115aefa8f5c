-- ===== src/Host/Arrives.antt =====
-- What an action has done when it returns, from a state in `I`: a predicate on the state and the history.
use canokey_usbip.Prelude.{◌≡◌, refl}
use canokey_usbip.Host.Events.{Event, History}
use canokey_usbip.Host.Errors.{Exc}
use canokey_usbip.Host.Action.{
  Result, ok, raised, diverged, Exec, gets, continue, resume, after, finally, recover, catch, ◌>>=◌,
}
use canokey_usbip.Host.Within.{Within, Raises}
use canokey_usbip.Host.Leads.{Leads-continue_gets}

pub record Arrives {S A : Type 0} (I : S → Type 0) (Q : S → History → Type 0) (m : Exec S A)
    : Type 0 where
  pub at : (s : S) (t : History) (a : A) → I s → (m s t).0 ≡ ok a → Q (m s t).1 (m s t).2

module _ {S A B : Type 0} {I : S → Type 0} {Q : S → History → Type 0} where
  Arrives-continue :
      (r : Result A) (f : A → Exec S B) (s : S) (t : History) (b : B)
      → I s
      → ((a : A) → Arrives I Q (f a))
      → (continue r f s t).0 ≡ ok b
      → Q (continue r f s t).1 (continue r f s t).2
  unfolding continue
  Arrives-continue (ok a) f s t b i k e = (k a).at s t b i e
  Arrives-continue (raised x) f s t b i k e = absurd (cc)
  Arrives-continue diverged f s t b i k e = absurd (cc)

  -- First what keeps `I`.
  pub Arrives-bind :
      {D : Type 0} {P : Event → Type 0} {E : Exc → Type 0} (m : Exec S A) (f : A → Exec S B)
      → Within D I P E m
      → ((a : A) → Arrives I Q (f a))
      → Arrives I Q (m >>= f)
  unfolding ◌>>=◌
  Arrives-bind m f w k = record {
    at = λ s t b i e. let (r, s', t') = m s t in Arrives-continue r f s' t' b (w.state s t i) k e;
  }

  -- First a look at the state.
  pub Arrives-look :
      (get : S → A) (f : A → Exec S B)
      → ((s : S) → I s → Arrives I Q (f (get s)))
      → Arrives I Q (gets get >>= f)
  unfolding ◌>>=◌ gets continue
  Arrives-look get f k = record { at = λ s t b i e. (k s i).at s t b i e }

raised_again :
    {A : Type 0} (x : Exc) (u : Result (Unit {0})) (a : A) → resume (raised x) u ≡ ok a → ⊥
unfolding resume
raised_again x (ok v) a e = absurd (cc)
raised_again x (raised y) a e = absurd (cc)
raised_again x diverged a e = absurd (cc)

module _ {S A : Type 0} {Q : S → History → Type 0} where
  Arrives-after :
      (r : Result A) (block : Exec S (Unit {0})) (s : S) (t : History) (a : A)
      → ((a : A) → r ≡ ok a → Q s t)
      → ((s : S) (t : History) → Q s t → Q (block s t).1 (block s t).2)
      → (after r block s t).0 ≡ ok a
      → Q (after r block s t).1 (after r block s t).2
  unfolding after resume
  Arrives-after (ok b) block s t a h k e = k s t (h b refl)
  Arrives-after (raised x) block s t a h k e =
      let (u, s', t') = block s t in absurd (raised_again x u a e)
  Arrives-after diverged block s t a h k e = absurd (cc)

module _ {S A : Type 0} {I : S → Type 0} {Q : S → History → Type 0} where
  Arrives-recover :
      (D : Type 0) {E : Exc → Type 0} (r : Result A) (handler : Exc → Exec S A) (s : S)
      (t : History) (a : A)
      → I s
      → Raises D E r
      → ((a : A) → r ≡ ok a → Q s t)
      → ((e : Exc) → E e → Arrives I Q (handler e))
      → (recover r handler s t).0 ≡ ok a
      → Q (recover r handler s t).1 (recover r handler s t).2
  unfolding recover
  Arrives-recover D (ok b) handler s t a i x q k e = q b refl
  Arrives-recover D (raised y) handler s t a i x q k e = (k y x).at s t a i e
  Arrives-recover D diverged handler s t a i x q k e = absurd (cc)

  pub Arrives-catch :
      {D : Type 0} {P : Event → Type 0} {E : Exc → Type 0} (m : Exec S A) (handler : Exc → Exec S A)
      → Within D I P E m
      → Arrives I Q m
      → ((e : Exc) → E e → Arrives I Q (handler e))
      → Arrives I Q (catch m handler)
  unfolding catch
  Arrives-catch {D} m handler w h k = record {
    at = λ s t a i e.
        let (r, s', t') = m s t in
        Arrives-recover D r handler s' t' a (w.state s t i) (w.errors s t i) (λ b x. h.at s t b i x)
          k e;
  }

  -- A `finally` block that keeps `Q`.
  pub Arrives-finally :
      (m : Exec S A) (block : Exec S (Unit {0}))
      → Arrives I Q m
      → ((s : S) (t : History) → Q s t → Q (block s t).1 (block s t).2)
      → Arrives I Q (finally m block)
  unfolding finally
  Arrives-finally m block h k = record {
    at = λ s t a i e.
        let (r, s', t') = m s t in Arrives-after r block s' t' a (λ b x. h.at s t b i x) k e;
  }

module _ {S A B : Type 0} {Q : S → History → Type 0} where
  -- Last a look at the state.
  pub Arrives-gets :
      {I : S → Type 0} (m : Exec S A) (f : S → B) → Arrives I Q m → Arrives I Q (m >>= λ u. gets f)
  unfolding ◌>>=◌
  Arrives-gets m f w = record {
    at = λ s t b i e.
        let (r, s', t') = m s t in Leads-continue_gets Q r f s' t' b (λ a x. w.at s t a i x) e;
  }
