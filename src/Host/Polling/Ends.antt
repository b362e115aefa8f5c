-- ===== src/Host/Polling/Ends.antt =====
-- The polling loop comes to an end, and never before its time.
use canokey_usbip.Prelude.{
  ℕ, zero, suc, ◌+◌, ◌*◌, ◌/◌, ◌≤◌, ◌<◌, ◌≡◌, ◌≢◌, refl, ◌∷◌, arith, ltb, Bool-cases, inl, inr,
}
use canokey_usbip.Host.Events.{Event, History}
use canokey_usbip.Host.Machine.{Env, IsClock}
use canokey_usbip.Host.Action.{Result, ok, raised, diverged, Exec, pure, diverge, continue, ◌>>=◌}
use canokey_usbip.Host.Calls.{monotonic, sleep}
use canokey_usbip.Host.Emits.{Extends, same, later, Emits}
use canokey_usbip.Host.Polling.Loop.{Probe, stop, go_on, Waited, expired, follow, rounds, poll_for}

-- The clock has not gone back over the events of an action.
pub monotonic-le :
    ⦃host : Env⦄
    → IsClock host
    → {P : Event → Type 0} {t u : History} → Extends P t u
    → host.monotonic t ≤ host.monotonic u
monotonic-le clock same = omega arith
monotonic-le clock (later {u = u} e p x) = omega (arith, clock.forward e u, monotonic-le clock x)

pub le-rounds : (limit pause : ℕ) → 0 < pause → limit ≤ (limit / pause + 1) * pause
le-rounds limit pause h = grind arith

module _ ⦃host : Env⦄ (clock : IsClock host) {S B A : Type 0} {P : Event → Type 0}
    (probe : B → Exec S (Probe B A)) (pause : ℕ)
    (total : (b : B) (s : S) (t : History) → (probe b s t).0 ≢ diverged)
    (emits : (b : B) → Emits P (probe b)) where
  -- The rest of a round ends if the next round does.
  follow-ends :
      (again : B → Exec S (Waited B A)) (r : Result (Probe B A)) (s : S) (t : History)
      → r ≢ diverged
      → ((b : B) → (again b s (Event.sleep pause ∷ t)).0 ≢ diverged)
      → (continue r (follow pause again) s t).0 ≢ diverged
  unfolding continue follow ◌>>=◌ sleep pure
  follow-ends again (ok (stop a)) s t n k = cc
  follow-ends again (ok (go_on b)) s t n k = k b
  follow-ends again (raised e) s t n k = cc
  follow-ends again diverged s t n k = absurd (n refl)

  rounds-ends :
      (deadline fuel : ℕ) (b : B) (s : S) (t : History)
      → deadline ≤ host.monotonic t + fuel * pause
      → (rounds probe pause deadline (suc fuel) b s t).0 ≢ diverged
  unfolding rounds ◌>>=◌ monotonic pure
  rounds-ends deadline zero b s t h = ground arith
  rounds-ends deadline (suc fuel) b s t h = elim (Bool-cases (ltb (host.monotonic t) deadline)) [
    | inl open' ↦
        let t₁ = Event.monotonic ∷ t in
        let (r, s', t') = probe b s t₁ in
        rw open' (
          follow-ends _ r s' t' (total b s t₁) λ b'. rounds-ends deadline fuel b' s' _ (
            omega (
              arith,
              clock.forward Event.monotonic t,
              monotonic-le clock ((emits b).at s t₁),
              clock.slept pause t',
            )))
    | inr over ↦ rw over (cc)
  ]

  -- With a clock that does what time.monotonic and time.sleep document, a pause that is not zero and
  -- a probe that always ends and only adds to the history, the loop ends too: the fuel never runs
  -- out.
  pub poll_for-ends :
      (limit : ℕ) (b : B) (s : S) (t : History)
      → 0 < pause
      → (poll_for limit pause b probe s t).0 ≢ diverged
  unfolding poll_for ◌>>=◌ monotonic
  poll_for-ends limit b s t h =
      let fuel : limit / pause + 2 ≡ suc (limit / pause + 1) = omega arith in
      rw fuel (
        rounds-ends _ _ b s _
          (omega (arith, clock.forward Event.monotonic t, le-rounds limit pause h)))

module _ ⦃host : Env⦄ (clock : IsClock host) {S B A : Type 0} (probe : B → Exec S (Probe B A))
    (pause : ℕ) where
  follow-expired :
      (deadline : ℕ) (again : B → Exec S (Waited B A)) (r : Result (Probe B A)) (s : S)
      (t : History)
      → ((b b' : B) (u : History)
          → (again b s u).0 ≡ ok (expired b')
          → deadline ≤ host.monotonic (again b s u).2)
      → {b' : B} → (continue r (follow pause again) s t).0 ≡ ok (expired b')
      → deadline ≤ host.monotonic (continue r (follow pause again) s t).2
  unfolding continue follow ◌>>=◌ sleep pure
  follow-expired deadline again (ok (stop a)) s t k h = cc
  follow-expired deadline again (ok (go_on b)) s t k {b'} h = k b b' _ h
  follow-expired deadline again (raised e) s t k h = cc
  follow-expired deadline again diverged s t k h = cc

  rounds-expired :
      (deadline fuel : ℕ) (b b' : B) (s : S) (t : History)
      → (rounds probe pause deadline fuel b s t).0 ≡ ok (expired b')
      → deadline ≤ host.monotonic (rounds probe pause deadline fuel b s t).2
  unfolding rounds ◌>>=◌ monotonic pure diverge
  rounds-expired deadline zero b b' s t h = cc
  rounds-expired deadline (suc fuel) b b' s t h =
      elim (Bool-cases (ltb (host.monotonic t) deadline)) [
        | inl open' ↦
            let t₁ = Event.monotonic ∷ t in
            let (r, s', t') = probe b s t₁ in
            rw open' (
              follow-expired deadline _ r s' t' (λ c c' u. rounds-expired deadline fuel c c' s' u)
                (rw open' at h))
        | inr over ↦ rw over (ground (arith, clock.forward Event.monotonic t))
      ]

  -- With a clock that does what time.monotonic and time.sleep document, a loop that ends by its
  -- deadline has waited for the whole limit.
  pub poll_for-expired :
      (limit : ℕ) (b b' : B) (s : S) (t : History)
      → (poll_for limit pause b probe s t).0 ≡ ok (expired b')
      → host.monotonic t + limit ≤ host.monotonic (poll_for limit pause b probe s t).2
  unfolding poll_for ◌>>=◌ monotonic
  poll_for-expired limit b b' s t h = rounds-expired _ _ b b' s _ h
