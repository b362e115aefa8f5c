-- ===== src/Host/Polling/Stays.antt =====
-- What the polling loop stays within: what its probe stays within. It diverges only if the probe does,
-- or if the clock may stand still.
use canokey_usbip.Prelude.{
  ℕ, zero, suc, ◌+◌, ◌*◌, ◌/◌, ◌≤◌, ◌<◌, ◌≡◌, ◌∷◌, arith, ltb, Bool-cases, inl, inr,
}
use canokey_usbip.Host.Events.{Event, History}
use canokey_usbip.Host.Errors.{Exc}
use canokey_usbip.Host.Machine.{Env, IsClock}
use canokey_usbip.Host.Action.{Result, ok, raised, diverged, Exec, pure, continue, ◌>>=◌}
use canokey_usbip.Host.Calls.{monotonic, sleep}
use canokey_usbip.Host.Emits.{Extends, same, later, Extends-trans}
use canokey_usbip.Host.Within.{Within, Within-diverge, within_rules, Raises}
use canokey_usbip.Host.Plain.{Bounded}
use canokey_usbip.Host.Polling.Loop.{Probe, stop, go_on, Waited, follow, rounds, poll_for}
use canokey_usbip.Host.Polling.Ends.{monotonic-le, le-rounds}

module _ ⦃host : Env⦄ {D S B A : Type 0} {I : S → Type 0} {P : Event → Type 0} {E : Exc → Type 0}
    (probe : B → Exec S (Probe B A)) (pause : ℕ) (timed : P Event.monotonic)
    (slept : P (Event.sleep pause)) (each : (b : B) → Within D I P E (probe b)) where
  -- Where the loop may diverge.
  follow-Within :
      (again : B → Exec S (Waited B A)) (p : Probe B A)
      → ((b : B) → Within D I P E (again b))
      → Within D I P E (follow pause again p)
  unfolding follow sleep
  follow-Within again (stop a) k = search within_rules
  follow-Within again (go_on b) k = search (within_rules, slept, tt)

  rounds-Within :
      (d : D) (deadline fuel : ℕ) (b : B) → Within D I P E (rounds probe pause deadline fuel b)
  unfolding rounds monotonic
  rounds-Within d deadline zero b = Within-diverge d
  rounds-Within d deadline (suc fuel) b =
      search (within_rules, timed, each, tt, follow-Within _ _ (rounds-Within d deadline fuel))
        depth 10

  -- Where the clock bounds it.
  abbrev Good : {X : Type 0} → History → Result X × S × History → Type 0
  Good t (r, s', t') = I s' × Extends P t t' × Raises D E r

  follow-Good :
      (again : B → Exec S (Waited B A)) (r : Result (Probe B A)) (s : S) (start t : History)
      → I s
      → Extends P start t
      → Raises D E r
      → ((b : B) → Good (Event.sleep pause ∷ t) (again b s (Event.sleep pause ∷ t)))
      → Good start (continue r (follow pause again) s t)
  unfolding continue follow ◌>>=◌ sleep pure
  follow-Good again (ok (stop a)) s start t i x q k = (i, x, tt)
  follow-Good again (ok (go_on b)) s start t i x q k =
      let (j, y, r) = k b in (j, Extends-trans (later _ slept x) y, r)
  follow-Good again (raised e) s start t i x q k = (i, x, q)
  follow-Good again diverged s start t i x q k = (i, x, q)

  rounds-Good :
      IsClock host
      → (deadline fuel : ℕ) (b : B) (s : S) (t : History) → I s
      → deadline ≤ host.monotonic t + fuel * pause
      → Good t (rounds probe pause deadline (suc fuel) b s t)
  unfolding rounds ◌>>=◌ monotonic pure
  rounds-Good clock deadline zero b s t i h = elim (Bool-cases (ltb (host.monotonic t) deadline)) [
    | inl open' ↦ absurd (ground arith)
    | inr over ↦ rw over (i, later _ timed same, tt)
  ]
  rounds-Good clock deadline (suc fuel) b s t i h =
      elim (Bool-cases (ltb (host.monotonic t) deadline)) [
        | inl open' ↦
            let t₁ = Event.monotonic ∷ t in
            let (r, s', t') = probe b s t₁ in
            let y = (each b).events s t₁ i in
            rw open' (
              follow-Good _ r s' t t' ((each b).state s t₁ i) (Extends-trans (later _ timed same) y)
                ((each b).errors s t₁ i)
                λ b'. rounds-Good clock deadline fuel b' s' _ ((each b).state s t₁ i) (
                  omega (
                    arith,
                    clock.forward Event.monotonic t,
                    monotonic-le clock y,
                    clock.slept pause t',
                  )))
        | inr over ↦ rw over (i, later _ timed same, tt)
      ]

  poll_for-Good :
      IsClock host
      → 0 < pause
      → (limit : ℕ) (b : B) (s : S) (t : History) → I s
      → Good t (poll_for limit pause b probe s t)
  unfolding poll_for ◌>>=◌ monotonic
  poll_for-Good clock h limit b s t i =
      let fuel : limit / pause + 2 ≡ suc (limit / pause + 1) = omega arith in
      let (j, x, q) =
        rounds-Good clock (host.monotonic t + limit) (limit / pause + 1) b s (Event.monotonic ∷ t) i
          (omega (arith, clock.forward Event.monotonic t, le-rounds limit pause h)) in
      rw fuel (j, Extends-trans (later _ timed same) x, q)

  pub poll_for-Within :
      Bounded D host
      → 0 < pause
      → (limit : ℕ) (b : B) → Within D I P E (poll_for limit pause b probe)
  unfolding poll_for monotonic
  poll_for-Within (inl d) h limit b = search (within_rules, timed, tt, rounds-Within)
  poll_for-Within (inr clock) h limit b = record {
    state = λ s t i. (poll_for-Good clock h limit b s t i).0;
    events = λ s t i. (poll_for-Good clock h limit b s t i).1;
    errors = λ s t i. (poll_for-Good clock h limit b s t i).2;
  }
