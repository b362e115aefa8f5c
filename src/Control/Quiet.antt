-- ===== src/Control/Quiet.antt =====
-- Where the host lets the program signal a process, `stop_pid` raises nothing.
use canokey_usbip.Prelude.{◌≢◌, ℕ, zero, suc, pos, true}
use canokey_usbip.Host.{
  Event, History, Env, Exc, Exec, ◌>>=◌, Os, done, failed, raised, os_error, OsError, sigterm,
  sigkill, pure, Result, ok, diverged,
}
use canokey_usbip.Host.Calls
use canokey_usbip.Host.Calls.{of_os}
use canokey_usbip.Host.Within.{Within, Raises, Within-catch, Within-bind, Within-if, within_rules}
use canokey_usbip.Host.Plain.{free, Anything, Bounded, tenth}
use canokey_usbip.Host.Polling.{Probe, Waited, found, expired, go_on}
use canokey_usbip.Host.Polling.Stays.{poll_for-Within}
use canokey_usbip.Harness.{pass_gone_or_foreign}
use canokey_usbip.Control.Stop.{
  not_a_zombie, is_zombie, gone, check_ended, kill_late, await_end, already_gone, stop_pid,
}

-- A signal is sent, or there is no such process.
abbrev pub Delivered : {A : Type 0} → Os A → Type 0
Delivered (done a) = Unit
Delivered (failed OsError.process_lookup m) = Unit
Delivered (failed _ m) = ⊥

-- kill(2) towards a process of one's own: it fails only where there is no such process.
pub record CanSignal (host : Env) (pid : ℕ) : Type 0 where
  pub terminated : (t : History) → Delivered (host.killpg pid sigterm t)
  pub killed : (t : History) → Delivered (host.killpg pid sigkill t)
  pub probed : (t : History) → Delivered (host.probe pid t)

abbrev IsGone : Exc → Type 0
IsGone (os_error OsError.process_lookup m) = Unit
IsGone _ = ⊥

abbrev IsOs : Exc → Type 0
IsOs (os_error k m) = Unit
IsOs _ = ⊥

abbrev Never : Exc → Type 0
Never e = ⊥

abbrev Any : Event → Type 0
Any e = Unit

Raises-Delivered : (D : Type 0) {A : Type 0} (x : Os A) → Delivered x → Raises D IsGone (of_os x)
Raises-Delivered D (done a) h = tt
Raises-Delivered D (failed OsError.process_lookup m) h = tt
Raises-Delivered D (failed _ m) h = absurd h

Raises-IsOs : (D : Type 0) {A : Type 0} (x : Os A) → Raises D IsOs (of_os x)
Raises-IsOs D (done a) = tt
Raises-IsOs D (failed k m) = tt

module _ ⦃host : Env⦄ {D : Type 0} (c : Bounded D host) {S : Type 0} (n : ℕ)
    (can : CanSignal host n) where
  abbrev Quiet : (Exc → Type 0) → {A : Type 0} → Exec S A → Type 0
  Quiet E = Within D Anything Any E

  not_a_zombie-Quiet : (e : Exc) → IsOs e → Quiet Never (not_a_zombie e)
  unfolding not_a_zombie
  not_a_zombie-Quiet (os_error k m) p = search within_rules
  not_a_zombie-Quiet e p = absurd p

  is_zombie-Quiet : Quiet Never (is_zombie n)
  unfolding is_zombie Calls.exists Calls.read_text
  is_zombie-Quiet =
      Within-catch _ _ (search (within_rules, Raises-IsOs, tt) depth 20) not_a_zombie-Quiet

  gone-Quiet : (e : Exc) → IsGone e → Quiet Never (gone e)
  unfolding gone
  gone-Quiet (os_error OsError.process_lookup m) p = search within_rules
  gone-Quiet (os_error _ m) p = absurd p
  gone-Quiet e p = absurd p

  probe-Quiet : Quiet IsGone (Calls.probe n)
  unfolding Calls.probe
  probe-Quiet = search (within_rules, Raises-Delivered, can.probed, tt)

  probed-Quiet : (p : Probe (Unit {0}) (Unit {0})) → Quiet IsGone (Calls.probe n >>= λ _. pure p)
  probed-Quiet p = search (within_rules, probe-Quiet) depth 10

  check_ended-Quiet : (u : Unit {0}) → Quiet Never (check_ended n u)
  unfolding check_ended
  check_ended-Quiet u = Within-bind _ _ is_zombie-Quiet λ zombie.
      Within-if zombie _ _ (search within_rules)
        (Within-catch _ _ (probed-Quiet (go_on tt)) gone-Quiet)

  pass-Quiet : (e : Exc) → IsGone e → Quiet Never (pass_gone_or_foreign e)
  unfolding pass_gone_or_foreign
  pass-Quiet (os_error OsError.process_lookup m) p = search within_rules
  pass-Quiet (os_error _ m) p = absurd p
  pass-Quiet e p = absurd p

  killed-Quiet : Quiet IsGone (Calls.killpg n sigkill)
  unfolding Calls.killpg
  killed-Quiet = search (within_rules, Raises-Delivered, can.killed, tt)

  kill_late-Quiet : (w : Waited (Unit {0}) (Unit {0})) → Quiet Never (kill_late n w)
  unfolding kill_late
  kill_late-Quiet (found u) = search within_rules
  kill_late-Quiet (expired u) = Within-catch _ _ killed-Quiet pass-Quiet

  await_end-Quiet : Quiet Never (await_end n)
  unfolding await_end
  await_end-Quiet =
      search (within_rules, poll_for-Within, check_ended-Quiet, kill_late-Quiet, tenth, tt) depth 20

  already_gone-Quiet : (e : Exc) → IsGone e → Quiet Never (already_gone e)
  unfolding already_gone
  already_gone-Quiet (os_error OsError.process_lookup m) p = search within_rules
  already_gone-Quiet (os_error _ m) p = absurd p
  already_gone-Quiet e p = absurd p

  terminated-Quiet : Quiet IsGone (Calls.killpg n sigterm >>= λ _. pure true)
  unfolding Calls.killpg
  terminated-Quiet = search (within_rules, Raises-Delivered, can.terminated, tt)

stop_pid-Quiet :
    ⦃host : Env⦄ {D : Type 0} (c : Bounded D host) {S : Type 0} (n : ℕ)
    → CanSignal host n
    → Within D Anything Any Never (stop_pid {S = S} (pos n))
unfolding stop_pid
stop_pid-Quiet c zero can = search within_rules
stop_pid-Quiet c (suc n) can =
    search
      (
        within_rules,
        Within-catch _ _ (terminated-Quiet c (suc n) can) (already_gone-Quiet c (suc n) can),
        await_end-Quiet,
      )
      depth 20

Raises-nothing :
    {A : Type 0} (D : Type 0) (r : Result A) → Raises D Never r → (e : Exc) → r ≢ raised e
Raises-nothing D (ok a) x e h = cc
Raises-nothing D (raised e') x e h = absurd x
Raises-nothing D diverged x e h = cc

-- Where the process is one's own, `stop_pid` raises nothing.
pub stop_pid-ne-raised :
    ⦃host : Env⦄ {S : Type 0} (n : ℕ)
    → CanSignal host n
    → (s : S) (t : History) (e : Exc) → (stop_pid (pos n) s t).0 ≢ raised e
stop_pid-ne-raised n can s t e =
    let w = stop_pid-Quiet {D = Unit {0}} free n can in
    Raises-nothing (Unit {0}) (stop_pid (pos n) s t).0 (w.errors s t tt) e
