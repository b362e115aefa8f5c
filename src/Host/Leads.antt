-- ===== src/Host/Leads.antt =====
-- What an action has done when it returns, by its last steps: a predicate on the value, the state and the
-- history.
use canokey_usbip.Prelude.{◌≡◌, refl}
use canokey_usbip.Host.Events.{History}
use canokey_usbip.Host.Action.{
  Result, ok, raised, diverged, Exec, gets, continue, resume, after, finally, ◌>>=◌,
}

pub record Leads {S A : Type 0} (Q : A → S → History → Type 0) (m : Exec S A) : Type 0 where
  pub at : (s : S) (t : History) (a : A) → (m s t).0 ≡ ok a → Q a (m s t).1 (m s t).2

module _ {S A B : Type 0} (Q : B → S → History → Type 0) where
  Leads-continue :
      (r : Result A) (f : A → Exec S B) (s : S) (t : History) (b : B)
      → ((a : A) → Leads Q (f a))
      → (continue r f s t).0 ≡ ok b
      → Q b (continue r f s t).1 (continue r f s t).2
  unfolding continue
  Leads-continue (ok a) f s t b k e = (k a).at s t b e
  Leads-continue (raised x) f s t b k e = absurd (cc)
  Leads-continue diverged f s t b k e = absurd (cc)

  pub Leads-bind : (m : Exec S A) (f : A → Exec S B) → ((a : A) → Leads Q (f a)) → Leads Q (m >>= f)
  unfolding ◌>>=◌
  Leads-bind m f k = record {
    at = λ s t b e. let (r, s', t') = m s t in Leads-continue r f s' t' b k e;
  }

-- What holds of any value, and so of the state and the history.
module _ {S A : Type 0} (Q : S → History → Type 0) where
  pub resumed :
      (r : Result A) (u : Result (Unit {0})) (s : S) (t : History) (a : A)
      → (u ≡ ok tt → Q s t)
      → resume r u ≡ ok a
      → Q s t
  unfolding resume
  resumed r (ok tt) s t a k e = k refl
  resumed r (raised x) s t a k e = absurd (cc)
  resumed r diverged s t a k e = absurd (cc)

  Leads-after :
      (r : Result A) (block : Exec S (Unit {0})) (s : S) (t : History) (a : A)
      → Leads (λ u. Q) block
      → (after r block s t).0 ≡ ok a
      → Q (after r block s t).1 (after r block s t).2
  unfolding after
  Leads-after (ok b) block s t a w e =
      let (u, s', t') = block s t in resumed (ok b) u s' t' a (w.at s t tt) e
  Leads-after (raised x) block s t a w e =
      let (u, s', t') = block s t in resumed (raised x) u s' t' a (w.at s t tt) e
  Leads-after diverged block s t a w e = absurd (cc)

  pub Leads-finally :
      (m : Exec S A) (block : Exec S (Unit {0}))
      → Leads (λ u. Q) block
      → Leads (λ a. Q) (finally m block)
  unfolding finally
  Leads-finally m block w = record {
    at = λ s t a e. let (r, s', t') = m s t in Leads-after r block s' t' a w e;
  }

module _ {S A B : Type 0} (Q : S → History → Type 0) where
  pub Leads-continue_gets :
      (r : Result A) (f : S → B) (s : S) (t : History) (b : B)
      → ((a : A) → r ≡ ok a → Q s t)
      → (continue r (λ _. gets f) s t).0 ≡ ok b
      → Q (continue r (λ _. gets f) s t).1 (continue r (λ _. gets f) s t).2
  unfolding continue gets
  Leads-continue_gets (ok a) f s t b k e = k a refl
  Leads-continue_gets (raised x) f s t b k e = absurd (cc)
  Leads-continue_gets diverged f s t b k e = absurd (cc)

  pub Leads-gets :
      (m : Exec S A) (f : S → B) → Leads (λ a. Q) m → Leads (λ b. Q) (m >>= λ _. gets f)
  unfolding ◌>>=◌
  Leads-gets m f w = record {
    at = λ s t b e. let (r, s', t') = m s t in Leads-continue_gets r f s' t' b (w.at s t) e;
  }
