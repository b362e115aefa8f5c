-- ===== src/Host/Polling/Finds.antt =====
-- The polling loop finds what becomes ready in time.
use canokey_usbip.Prelude.{
  ℕ, zero, suc, ◌+◌, ◌*◌, ◌/◌, ◌≤◌, ◌<◌, ◌≡◌, true, ◌∷◌, arith, ltb, leb, Bool-cases, inl, inr,
}
use canokey_usbip.Host.Events.{Event, History}
use canokey_usbip.Host.Machine.{Env, IsClock}
use canokey_usbip.Host.Action.{Result, ok, raised, diverged, Exec, pure, continue, ◌>>=◌}
use canokey_usbip.Host.Calls.{monotonic, sleep}
use canokey_usbip.Host.Emits.{Emits}
use canokey_usbip.Host.Polling.Loop.{Probe, stop, go_on, Waited, found, follow, rounds, poll_for}
use canokey_usbip.Host.Polling.Ends.{monotonic-le, le-rounds}

-- The loop has found something.
abbrev pub Finds : {B A : Type 0} → Result (Waited B A) → Type 0
Finds (ok (found a)) = Unit {0}
Finds _ = ⊥

-- The probe answers.
abbrev pub Answers : {B A : Type 0} → Result (Probe B A) → Type 0
Answers (ok p) = Unit {0}
Answers _ = ⊥

-- The probe is satisfied.
abbrev pub Stops : {B A : Type 0} → Result (Probe B A) → Type 0
Stops (ok (stop a)) = Unit {0}
Stops _ = ⊥

-- A probe that always answers, is satisfied from the time `ready` on, and takes with the pause behind
-- it `round` milliseconds at most.
pub record IsPrompt ⦃host : Env⦄ {S B A : Type 0} (probe : B → Exec S (Probe B A))
    (pause ready round : ℕ) : Type 0 where
  pub answers : (b : B) (s : S) (t : History) → Answers (probe b s t).0
  pub satisfied : (b : B) (s : S) (t : History) → ready ≤ host.monotonic t → Stops (probe b s t).0
  pub prompt :
      (b : B) (s : S) (t : History)
      → host.monotonic (Event.sleep pause ∷ (probe b s (Event.monotonic ∷ t)).2)
        ≤ host.monotonic t + round

module _ ⦃host : Env⦄ (clock : IsClock host) {S B A : Type 0} {P : Event → Type 0}
    (probe : B → Exec S (Probe B A)) (pause ready round : ℕ) (emits : (b : B) → Emits P (probe b))
    (is_prompt : IsPrompt probe pause ready round) where
  follow-Stops :
      (again : B → Exec S (Waited B A)) (r : Result (Probe B A)) (s : S) (t : History)
      → Stops r
      → Finds (continue r (follow pause again) s t).0
  unfolding continue follow pure
  follow-Stops again (ok (stop a)) s t h = tt
  follow-Stops again (ok (go_on b)) s t h = absurd h
  follow-Stops again (raised e) s t h = absurd h
  follow-Stops again diverged s t h = absurd h

  follow-Finds :
      (again : B → Exec S (Waited B A)) (r : Result (Probe B A)) (s : S) (t : History)
      → Answers r
      → ((b : B) → Finds (again b s (Event.sleep pause ∷ t)).0)
      → Finds (continue r (follow pause again) s t).0
  unfolding continue follow ◌>>=◌ sleep pure
  follow-Finds again (ok (stop a)) s t h k = tt
  follow-Finds again (ok (go_on b)) s t h k = k b
  follow-Finds again (raised e) s t h k = absurd h
  follow-Finds again diverged s t h k = absurd h

  rounds-Finds :
      (deadline fuel : ℕ) (b : B) (s : S) (t : History)
      → ready + round ≤ deadline
      → host.monotonic t < deadline
      → deadline ≤ host.monotonic t + fuel * pause
      → Finds (rounds probe pause deadline (suc fuel) b s t).0
  unfolding rounds ◌>>=◌ monotonic pure
  rounds-Finds deadline zero b s t late open' h = absurd (omega (arith, h, open'))
  rounds-Finds deadline (suc fuel) b s t late open' h =
      let t₁ = Event.monotonic ∷ t in
      let (r, s', t') = probe b s t₁ in
      let is_open : ltb (host.monotonic t) deadline ≡ true = ground arith in
      rw is_open (elim (Bool-cases (leb ready (host.monotonic t))) [
        | inl due ↦
            follow-Stops _ r s' t'
              (is_prompt.satisfied b s t₁ (ground (arith, clock.forward Event.monotonic t)))
        | inr early ↦ follow-Finds _ r s' t' (is_prompt.answers b s t₁) λ b'.
            rounds-Finds deadline fuel b' s' _ late (ground (arith, is_prompt.prompt b s t)) (
              omega (
                arith,
                clock.forward Event.monotonic t,
                monotonic-le clock ((emits b).at s t₁),
                clock.slept pause t',
              ))
      ])

  -- With a clock that does what time.monotonic and time.sleep document and a pause that is not zero:
  -- what is ready one round before the deadline is found, if reading the clock for the first time does
  -- not take the whole limit.
  pub poll_for-Finds :
      (limit : ℕ) (b : B) (s : S) (t : History)
      → 0 < pause
      → ready + round ≤ host.monotonic t + limit
      → host.monotonic (Event.monotonic ∷ t) < host.monotonic t + limit
      → Finds (poll_for limit pause b probe s t).0
  unfolding poll_for ◌>>=◌ monotonic
  poll_for-Finds limit b s t h late first =
      let fuel : limit / pause + 2 ≡ suc (limit / pause + 1) = omega arith in
      rw fuel (
        rounds-Finds _ _ b s _ late first
          (omega (arith, clock.forward Event.monotonic t, le-rounds limit pause h)))
