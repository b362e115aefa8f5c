-- ===== src/Host/Follows.antt =====
-- What an action does to the history, by a transitive relation: every step goes on from where the one
-- before has left it.
use canokey_usbip.Prelude.{◌≡◌, refl}
use canokey_usbip.Host.Events.{History}
use canokey_usbip.Host.Errors.{Exc}
use canokey_usbip.Host.Within.{Raises}
use canokey_usbip.Host.Action.{
  Result, ok, raised, diverged, Exec, continue, after, finally, recover, catch, ◌>>=◌,
}

pub record Follows {S A : Type 0} (R : History → History → Type 0) (m : Exec S A) : Type 0 where
  pub at : (s : S) (t : History) → R t (m s t).2

-- What such a relation is.
pub record IsTransitive (R : History → History → Type 0) : Type 0 where
  pub itself : (t : History) → R t t
  pub trans : (t u v : History) → R t u → R u v → R t v

module _ {R : History → History → Type 0} (laws : IsTransitive R) where
  module _ {S A B : Type 0} where
    -- A second action that needs to follow only where the first one returns.
    Follows-continue :
        (r : Result A) (f : A → Exec S B) (s : S) (t : History)
        → ((a : A) → r ≡ ok a → R t (f a s t).2)
        → R t (continue r f s t).2
    unfolding continue
    Follows-continue (ok a) f s t k = k a refl
    Follows-continue (raised e) f s t k = laws.itself t
    Follows-continue diverged f s t k = laws.itself t

    pub Follows-bind_known :
        (m : Exec S A) (f : A → Exec S B)
        → Follows R m
        → ((s : S) (t : History) (a : A)
            → (m s t).0 ≡ ok a
            → R (m s t).2 (f a (m s t).1 (m s t).2).2)
        → Follows R (m >>= f)
    unfolding ◌>>=◌
    Follows-bind_known m f w k = record {
      at = λ s t.
          let (r, s', t') = m s t in
          laws.trans t t' _ (w.at s t) (Follows-continue r f s' t' (λ a e. k s t a e));
    }

    pub Follows-bind :
        (m : Exec S A) (f : A → Exec S B)
        → Follows R m
        → ((a : A) → Follows R (f a))
        → Follows R (m >>= f)
    Follows-bind m f w k = Follows-bind_known m f w (λ s t a e. (k a).at (m s t).1 (m s t).2)

  module _ {S A : Type 0} where
    Follows-recover :
        (D : Type 0) {E : Exc → Type 0} (r : Result A) (handler : Exc → Exec S A) (s : S)
        (t : History)
        → Raises D E r
        → ((e : Exc) → E e → Follows R (handler e))
        → R t (recover r handler s t).2
    unfolding recover
    Follows-recover D (ok a) handler s t x k = laws.itself t
    Follows-recover D (raised e) handler s t x k = (k e x).at s t
    Follows-recover D diverged handler s t x k = laws.itself t

    pub Follows-catch :
        (D : Type 0) {E : Exc → Type 0} (m : Exec S A) (handler : Exc → Exec S A)
        → ((s : S) (t : History) → Raises D E (m s t).0)
        → Follows R m
        → ((e : Exc) → E e → Follows R (handler e))
        → Follows R (catch m handler)
    unfolding catch
    Follows-catch D m handler errors w k = record {
      at = λ s t.
          let (r, s', t') = m s t in
          laws.trans t t' _ (w.at s t) (Follows-recover D r handler s' t' (errors s t) k);
    }

    Follows-after :
        (r : Result A) (block : Exec S (Unit {0})) (s : S) (t : History)
        → Follows R block
        → R t (after r block s t).2
    unfolding after
    Follows-after (ok a) block s t w = w.at s t
    Follows-after (raised e) block s t w = w.at s t
    Follows-after diverged block s t w = laws.itself t

    pub Follows-finally :
        (m : Exec S A) (block : Exec S (Unit {0}))
        → Follows R m
        → Follows R block
        → Follows R (finally m block)
    unfolding finally
    Follows-finally m block w k = record {
      at = λ s t.
          let (r, s', t') = m s t in laws.trans t t' _ (w.at s t) (Follows-after r block s' t' k);
    }
