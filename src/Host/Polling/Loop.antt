-- ===== src/Host/Polling/Loop.antt =====
-- The loop, on fuel, with what the last probe left behind.
use canokey_usbip.Prelude.{ℕ, zero, suc, ◌+◌, ◌/◌, ltb, if◌then◌else◌}
use canokey_usbip.Host.Machine.{Env}
use canokey_usbip.Host.Action.{Exec, pure, diverge, ◌>>=◌, ◌>>◌}
use canokey_usbip.Host.Calls.{monotonic, sleep}

-- How a probe ends: the loop returns, or goes on.
pub data Probe (B A : Type 0) : Type 0 where
  stop : A → Probe B A
  go_on : B → Probe B A

-- How the loop ends: by a probe, or by the deadline, with the last thing that a probe left.
pub data Waited (B A : Type 0) : Type 0 where
  found : A → Waited B A
  expired : B → Waited B A

module _ {S B A : Type 0} (pause : ℕ) where
  unfoldable pub follow : (B → Exec S (Waited B A)) → Probe B A → Exec S (Waited B A)
  follow again (stop a) = pure (found a)
  follow again (go_on b) = sleep pause >> again b

module _ ⦃host : Env⦄ {S B A : Type 0} (probe : B → Exec S (Probe B A)) (pause deadline : ℕ) where
  unfoldable pub rounds : ℕ → B → Exec S (Waited B A)
  unfolding follow
  rounds zero b = diverge
  rounds (suc fuel) b = do
    now ← monotonic
    if ltb now deadline then (probe b >>= follow pause (rounds fuel)) else pure (expired b)

module _ ⦃host : Env⦄ {S B A : Type 0} where
  unfoldable pub poll_for : ℕ → ℕ → B → (B → Exec S (Probe B A)) → Exec S (Waited B A)
  unfolding rounds
  poll_for limit pause b probe = do
    start ← monotonic
    rounds probe pause (start + limit) (limit / pause + 2) b
