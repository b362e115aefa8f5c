-- ===== src/Host/Action.antt =====
-- Methods that mutate an object, call the host and may raise. What was written and called before a
-- raise stays, so state and history come back beside the exception too. `diverged` is a loop that
-- has run out of the fuel of the model; nothing after it runs.
use canokey_usbip.Prelude.{Bool, true, false}
use canokey_usbip.Host.Events.{History}
use canokey_usbip.Host.Errors.{Exc}

pub data Result {ℓ} (A : Type ℓ) : Type ℓ where
  ok : A → Result A
  raised : Exc → Result A
  diverged : Result A

abbrev pub Exec : Type 0 → Type 0 → Type 0
Exec S A = S → History → Result A × S × History

module _ {S A : Type 0} where
  unfoldable pub pure : A → Exec S A
  pure a s t = (ok a, s, t)

  unfoldable pub raise : Exc → Exec S A
  raise e s t = (raised e, s, t)

  unfoldable pub diverge : Exec S A
  diverge s t = (diverged, s, t)

  unfoldable pub gets : (S → A) → Exec S A
  gets f s t = (ok (f s), s, t)

module _ {S A B : Type 0} where
  unfoldable pub continue : Result A → (A → Exec S B) → Exec S B
  continue (ok a) f s t = f a s t
  continue (raised e) f s t = (raised e, s, t)
  continue diverged f s t = (diverged, s, t)

  infixl 10 ◌>>=◌ ◌>>◌
  unfoldable pub ◌>>=◌ : Exec S A → (A → Exec S B) → Exec S B
  unfolding continue
  ◌>>=◌ m f s t = let (r, s', t') = m s t in continue r f s' t'

  abbrev pub ◌>>◌ : Exec S A → Exec S B → Exec S B
  m >> n = m >>= λ _. n

module _ {S : Type 0} where
  unfoldable pub modify : (S → S) → Exec S (Unit {0})
  modify f s t = (ok tt, f s, t)

-- What follows a `finally` block: the block's own exception replaces what was pending.
unfoldable pub resume : {A : Type 0} → Result A → Result (Unit {0}) → Result A
resume r (ok _) = r
resume r (raised e) = raised e
resume r diverged = diverged

-- if b: raise e
unfoldable pub raise_if : {S : Type 0} → Bool → Exc → Exec S (Unit {0})
unfolding raise pure
raise_if true e = raise e
raise_if false e = pure tt

module _ {S A : Type 0} where
  unfoldable pub recover : Result A → (Exc → Exec S A) → Exec S A
  recover (ok a) f s t = (ok a, s, t)
  recover (raised e) f s t = f e s t
  recover diverged f s t = (diverged, s, t)

  -- try: m, except: the clauses of the handler, which raises again what no clause matches
  unfoldable pub catch : Exec S A → (Exc → Exec S A) → Exec S A
  unfolding recover
  catch m handler s t = let (r, s', t') = m s t in recover r handler s' t'

  unfoldable pub after : Result A → Exec S (Unit {0}) → Exec S A
  unfolding resume
  after (ok a) m s t = let (r, s', t') = m s t in (resume (ok a) r, s', t')
  after (raised e) m s t = let (r, s', t') = m s t in (resume (raised e) r, s', t')
  after diverged m s t = (diverged, s, t)

  -- try: m, finally: the block
  unfoldable pub finally : Exec S A → Exec S (Unit {0}) → Exec S A
  unfolding after
  finally m block s t = let (r, s', t') = m s t in after r block s' t'

-- A call of a method of an object that the state holds.
unfoldable pub zoom : {S P A : Type 0} → (S → P) → (P → S → S) → Exec P A → Exec S A
zoom get put m s t = let (r, p, t') = m (get s) t in (r, put p s, t')
