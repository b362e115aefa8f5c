-- ===== src/Control/Stopping.antt =====
-- `stop_pid`: it ends, leaves the session alone, and signals no process group but the one it is given.
use canokey_usbip.Prelude.{◌≢◌, ◌≡◌, refl, ℕ, zero, suc, pos, inr}
use canokey_usbip.Host.{Event, History, Env, IsClock, Exc, Exec, diverged, os_error, OsError}
use canokey_usbip.Host.Calls
use canokey_usbip.Host.Emits.{Extends}
use canokey_usbip.Host.Within.{Within, ended}
use canokey_usbip.Host.Plain.{IsPlain, Bounded, plain_rules}
use canokey_usbip.Host.Polling.{Waited, found, expired}
use canokey_usbip.Host.Polling.Stays.{poll_for-Within}
use canokey_usbip.Harness.{pass_gone_or_foreign}
use canokey_usbip.Control.Stop.{
  not_a_zombie, is_zombie, gone, check_ended, kill_late, await_end, already_gone, stop_pid,
}

-- The only group that is signalled is `pid`; no process is started, and nothing is removed.
abbrev pub SignalsOnly : ℕ → Event → Type 0
SignalsOnly pid (Event.killpg p sig) = p ≡ pid
SignalsOnly pid (Event.popen argv cwd added) = ⊥
SignalsOnly pid (Event.kill p sig) = ⊥
SignalsOnly pid (Event.rmtree p) = ⊥
SignalsOnly pid _ = Unit

module _ ⦃host : Env⦄ {D : Type 0} (c : Bounded D host) {S : Type 0} (I : S → Type 0) (n : ℕ) where
  abbrev Only : {A : Type 0} → Exec S A → Type 0
  Only = Within D I (SignalsOnly n) IsPlain

  not_a_zombie-Only : (e : Exc) → IsPlain e → Only (not_a_zombie e)
  unfolding not_a_zombie
  not_a_zombie-Only (os_error k m) p = search plain_rules
  not_a_zombie-Only e p = search (plain_rules, p)

  is_zombie-Only : Only (is_zombie n)
  unfolding is_zombie Calls.exists Calls.read_text
  is_zombie-Only = search (plain_rules, not_a_zombie-Only) depth 20

  gone-Only : (e : Exc) → IsPlain e → Only (gone e)
  unfolding gone
  gone-Only (os_error OsError.process_lookup m) p = search plain_rules
  gone-Only (os_error k m) p = search plain_rules
  gone-Only e p = search (plain_rules, p)

  check_ended-Only : (u : Unit {0}) → Only (check_ended n u)
  unfolding check_ended Calls.probe
  check_ended-Only u = search (plain_rules, is_zombie-Only, gone-Only) depth 20

  pass-Only : (e : Exc) → IsPlain e → Only (pass_gone_or_foreign e)
  unfolding pass_gone_or_foreign
  pass-Only (os_error OsError.process_lookup m) p = search plain_rules
  pass-Only (os_error OsError.permission m) p = search plain_rules
  pass-Only (os_error k m) p = search plain_rules
  pass-Only e p = search (plain_rules, p)

  kill_late-Only : (w : Waited (Unit {0}) (Unit {0})) → Only (kill_late n w)
  unfolding kill_late Calls.killpg
  kill_late-Only (found u) = search plain_rules
  kill_late-Only (expired u) = search (plain_rules, pass-Only) depth 10

  await_end-Only : Only (await_end n)
  unfolding await_end
  await_end-Only = search (plain_rules, poll_for-Within, check_ended-Only, kill_late-Only) depth 20

  already_gone-Only : (e : Exc) → IsPlain e → Only (already_gone e)
  unfolding already_gone
  already_gone-Only (os_error OsError.process_lookup m) p = search plain_rules
  already_gone-Only (os_error k m) p = search plain_rules
  already_gone-Only e p = search (plain_rules, p)

pub stop_pid-Only :
    ⦃host : Env⦄ {D : Type 0} (c : Bounded D host) {S : Type 0} (I : S → Type 0) (n : ℕ)
    → Within D I (SignalsOnly n) IsPlain (stop_pid (pos n))
unfolding stop_pid Calls.killpg
stop_pid-Only c I zero = search plain_rules
stop_pid-Only c I (suc n) = search (plain_rules, await_end-Only, already_gone-Only) depth 20

-- With a clock that does what time.monotonic and time.sleep document, `stop_pid` ends, leaves the
-- session as it is, signals no process group but the one it is given, and starts and removes nothing.
pub stop_pid-SignalsOnly :
    ⦃host : Env⦄
    → IsClock host
    → {S : Type 0} (n : ℕ) (s : S) (t : History)
    → let (r, s', t') = stop_pid (pos n) s t in
      (r ≢ diverged) × (s' ≡ s) × Extends (SignalsOnly n) t t'
stop_pid-SignalsOnly clock n s t =
    let w = stop_pid-Only {D = ⊥} (inr clock) (λ s'. s' ≡ s) n in
    (ended (λ s'. s' ≡ s) _ w s t refl, w.state s t refl, w.events s t refl)
