-- ===== src/Tests/Loops.antt =====
-- The polling loop, on the host that works, with a probe that is satisfied after half a second.
use canokey_usbip.Prelude.{ℕ, ◌≤◌, ◌≡◌, false, [], suc, ltb, if◌then◌else◌, arith}
use canokey_usbip.Host.{Event, Exec, pure, ◌>>=◌, continue}
use canokey_usbip.Host.Calls.{monotonic}
use canokey_usbip.Host.Emits.{same, later, Emits}
use canokey_usbip.Host.Polling.{Probe, stop, go_on, poll_for}
use canokey_usbip.Host.Polling.Bounds.{sleeps, IsNoSleep, poll_for-sleeps}
use canokey_usbip.Host.Polling.Finds.{Finds, IsPrompt, poll_for-Finds}
use canokey_usbip.Tests.Machine.{busy, busy-IsClock, elapsed}

abbrev half_second : ℕ → Exec (Unit {0}) (Probe ℕ ℕ)
half_second n = do
  now ← monotonic ⦃host = busy⦄
  pure (if ltb now 500 then go_on (suc n) else stop n)

half_second-Emits : (n : ℕ) → Emits IsNoSleep (half_second n)
unfolding ◌>>=◌ continue monotonic pure
half_second-Emits n = record { at = λ s t. later Event.monotonic tt same }

half_second-IsPrompt : IsPrompt ⦃host = busy⦄ half_second 250 500 250
unfolding ◌>>=◌ continue monotonic pure elapsed
half_second-IsPrompt = record {
  answers = λ b s t. tt;
  satisfied = λ b s t h. let over : ltb (elapsed t) 500 ≡ false = ground arith in rw over tt;
  prompt = λ b s t. omega arith;
}

poll_for-sleeps_example : sleeps (poll_for ⦃host = busy⦄ 1000 250 0 half_second tt []).2 ≤ 4
unfolding sleeps
poll_for-sleeps_example =
    poll_for-sleeps ⦃host = busy⦄ busy-IsClock half_second 250 half_second-Emits 1000 4 0 tt []
      (omega arith)

poll_for-Finds_example : Finds (poll_for ⦃host = busy⦄ 1000 250 0 half_second tt []).0
unfolding elapsed
poll_for-Finds_example =
    poll_for-Finds ⦃host = busy⦄ busy-IsClock {P = IsNoSleep} half_second 250 500 250
      half_second-Emits half_second-IsPrompt 1000 0 tt [] (omega arith) (omega arith) (omega arith)
