-- ===== src/Host/Polling/Found.antt =====
-- What ends the polling loop: a loop that finds something has got it from its last probe.
use canokey_usbip.Prelude.{ℕ, zero, suc, ◌≡◌, refl, ◌∷◌, ltb, Bool-cases, inl, inr}
use canokey_usbip.Host.Events.{Event, History}
use canokey_usbip.Host.Errors.{Exc}
use canokey_usbip.Host.Machine.{Env}
use canokey_usbip.Host.Action.{Result, ok, raised, diverged, Exec, pure, diverge, continue, ◌>>=◌}
use canokey_usbip.Host.Calls.{monotonic, sleep}
use canokey_usbip.Host.Polling.Loop.{Probe, stop, go_on, Waited, found, follow, rounds, poll_for}
use canokey_usbip.Host.Within.{Within}

-- The state and the history of `x` are those that a probe left when it stopped with `a`. The state of
-- the probe's start is in `I`.
pub record LastProbe {S B A : Type 0} (I : S → Type 0) (probe : B → Exec S (Probe B A)) (a : A)
    (x : Result (Waited B A) × S × History) : Type 0 where
  pub left : B
  pub state : S
  pub history : History
  pub inside : I state
  pub stopped : probe left state history ≡ (ok (stop a), x.1, x.2)

module _ ⦃host : Env⦄ {D S B A : Type 0} {I : S → Type 0} {P : Event → Type 0} {E : Exc → Type 0}
    (probe : B → Exec S (Probe B A)) (pause : ℕ) (each : (b : B) → Within D I P E (probe b))
    (a : A) where
  follow-found :
      (again : B → Exec S (Waited B A)) (b : B) (s : S) (t : History)
      → I s
      → (y : Result (Probe B A) × S × History) → probe b s t ≡ y
      → I y.1
      → ((b' : B) (s' : S) (t' : History)
          → I s'
          → (again b' s' t').0 ≡ ok (found a)
          → LastProbe I probe a (again b' s' t'))
      → (continue y.0 (follow pause again) y.1 y.2).0 ≡ ok (found a)
      → LastProbe I probe a (continue y.0 (follow pause again) y.1 y.2)
  unfolding continue follow ◌>>=◌ sleep pure
  follow-found again b s t i (ok (stop c), s', t') e j k h = record {
    left = b;
    state = s;
    history = t;
    inside = i;
    stopped = cc;
  }
  follow-found again b s t i (ok (go_on b'), s', t') e j k h = k b' s' _ j h
  follow-found again b s t i (raised x, s', t') e j k h = absurd (cc)
  follow-found again b s t i (diverged, s', t') e j k h = absurd (cc)

  rounds-found :
      (deadline fuel : ℕ) (b : B) (s : S) (t : History)
      → I s
      → (rounds probe pause deadline fuel b s t).0 ≡ ok (found a)
      → LastProbe I probe a (rounds probe pause deadline fuel b s t)
  unfolding rounds ◌>>=◌ monotonic pure diverge
  rounds-found deadline zero b s t i h = absurd (cc)
  rounds-found deadline (suc fuel) b s t i h = elim (Bool-cases (ltb (host.monotonic t) deadline)) [
    | inl open' ↦
        let t₁ = Event.monotonic ∷ t in
        rw open' (
          follow-found _ b s t₁ i (probe b s t₁) refl ((each b).state s t₁ i)
            (λ b' s' t' j. rounds-found deadline fuel b' s' t' j) (rw open' at h))
    | inr over ↦ absurd (let h' = rw over at h in cc)
  ]

  pub poll_for-found :
      (limit : ℕ) (b : B) (s : S) (t : History)
      → I s
      → (poll_for limit pause b probe s t).0 ≡ ok (found a)
      → LastProbe I probe a (poll_for limit pause b probe s t)
  unfolding poll_for ◌>>=◌ monotonic
  poll_for-found limit b s t i h = rounds-found _ _ b s _ i h
