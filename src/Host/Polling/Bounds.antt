-- ===== src/Host/Polling/Bounds.antt =====
-- How often the polling loop sleeps.
use canokey_usbip.Prelude.{
  ℕ, zero, suc, ◌+◌, ◌*◌, ◌≤◌, ◌≡◌, refl, [], ◌∷◌, arith, ltb, Bool-cases, inl, inr,
}
use canokey_usbip.Host.Events.{Event, History}
use canokey_usbip.Host.Machine.{Env, IsClock}
use canokey_usbip.Host.Action.{Result, ok, raised, diverged, Exec, pure, diverge, continue, ◌>>=◌}
use canokey_usbip.Host.Calls.{monotonic, sleep}
use canokey_usbip.Host.Emits.{Extends, same, later, Emits}
use canokey_usbip.Host.Polling.Loop.{Probe, stop, go_on, Waited, follow, rounds, poll_for}
use canokey_usbip.Host.Polling.Ends.{monotonic-le}

-- The calls of time.sleep.
unfoldable pub sleeps : History → ℕ
sleeps [] = 0
sleeps (Event.sleep d ∷ t) = suc (sleeps t)
sleeps (e ∷ t) = sleeps t

abbrev pub IsNoSleep : Event → Type 0
IsNoSleep (Event.sleep d) = ⊥
IsNoSleep _ = Unit

sleeps-later : (e : Event) (t : History) → IsNoSleep e → sleeps (e ∷ t) ≡ sleeps t
unfolding sleeps
sleeps-later (Event.sleep d) t p = absurd p
sleeps-later e t p = refl

sleeps-Extends : {t u : History} → Extends IsNoSleep t u → sleeps u ≤ sleeps t
sleeps-Extends same = omega arith
sleeps-Extends (later {u = u} e p x) = omega (arith, sleeps-later e u p, sleeps-Extends x)

module _ ⦃host : Env⦄ (clock : IsClock host) {S B A : Type 0} (probe : B → Exec S (Probe B A))
    (pause : ℕ) (emits : (b : B) → Emits IsNoSleep (probe b)) where
  follow-sleeps :
      (n : ℕ) (again : B → Exec S (Waited B A)) (r : Result (Probe B A)) (s : S) (t : History)
      → ((b : B) → sleeps (again b s (Event.sleep pause ∷ t)).2 ≤ sleeps t + suc n)
      → sleeps (continue r (follow pause again) s t).2 ≤ sleeps t + suc n
  unfolding continue follow ◌>>=◌ sleep pure
  follow-sleeps n again (ok (stop a)) s t k = omega arith
  follow-sleeps n again (ok (go_on b)) s t k = k b
  follow-sleeps n again (raised e) s t k = omega arith
  follow-sleeps n again diverged s t k = omega arith

  rounds-sleeps :
      (deadline fuel n : ℕ) (b : B) (s : S) (t : History)
      → deadline ≤ host.monotonic t + n * pause
      → sleeps (rounds probe pause deadline fuel b s t).2 ≤ sleeps t + n
  unfolding rounds ◌>>=◌ monotonic pure diverge sleeps
  rounds-sleeps deadline zero n b s t h = omega arith
  rounds-sleeps deadline (suc fuel) zero b s t h = ground arith
  rounds-sleeps deadline (suc fuel) (suc n) b s t h =
      elim (Bool-cases (ltb (host.monotonic t) deadline)) [
        | inl open' ↦
            let t₁ = Event.monotonic ∷ t in
            let (r, s', t') = probe b s t₁ in
            let within = sleeps-Extends ((emits b).at s t₁) in
            let rest = follow-sleeps n (rounds probe pause deadline fuel) r s' t' λ b'. omega (
              arith,
              rounds-sleeps deadline fuel n b' s' (Event.sleep pause ∷ t') (
                  omega (
                    arith,
                    clock.forward Event.monotonic t,
                    monotonic-le clock ((emits b).at s t₁),
                    clock.slept pause t',
                  )),
            ) in
            rw open' (omega (arith, rest, within))
        | inr over ↦ rw over (omega arith)
      ]

  -- With a clock that does what time.monotonic and time.sleep document and a probe that does not
  -- sleep, a loop whose limit is at most n pauses sleeps at most n times.
  pub poll_for-sleeps :
      (limit n : ℕ) (b : B) (s : S) (t : History)
      → limit ≤ n * pause
      → sleeps (poll_for limit pause b probe s t).2 ≤ sleeps t + n
  unfolding poll_for ◌>>=◌ monotonic sleeps
  poll_for-sleeps limit n b s t h =
      rounds-sleeps _ _ n b s (Event.monotonic ∷ t) (omega (arith, clock.forward Event.monotonic t))
