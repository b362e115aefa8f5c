-- ===== src/Harness/Reaping.antt =====
-- How `stop_server` ends the server that the run has started.
use canokey_usbip.Host.Plain.{free}
use canokey_usbip.Prelude.{◌≡◌, refl, ℕ, suc, ℤ, pos, Option, none, some, ◌∷◌, arith, true}
use canokey_usbip.Host.{
  Event, History, sigterm, sigkill, Env, Exc, os_error, OsError, Exec, Result, ok, raised, diverged,
  pure, gets, raise, catch, recover, continue, ◌>>=◌,
}
use canokey_usbip.Host.Calls
use canokey_usbip.Host.Calls.{of_os}
use canokey_usbip.Harness.State.{Harness}
use canokey_usbip.Harness.Server.{
  pass_gone, pass_gone_or_foreign, kill_quietly, killed, reap_or_kill, reap, stop_recorded,
  is_server, recorded_pid, stop_server,
}
use canokey_usbip.Harness.Lasting.{AnyEvent}
use canokey_usbip.Harness.TidyRun.{recorded_pid-Tidy}

-- A process that has been told to end, by the history `u`: within five seconds it has ended; or it is
-- killed, and within five more seconds it has ended.
pub data Reaped ⦃host : Env⦄ (pid : ℕ) (u t : History) : Type 0 where
  in_time : (code : ℤ) → host.wait pid 5 u ≡ some code → t ≡ Event.wait pid 5 ∷ u → Reaped pid u t
  late :
      (code : ℤ)
      → host.wait pid 5 u ≡ none
      → host.wait pid 5 (Event.killpg pid sigkill ∷ Event.wait pid 5 ∷ u) ≡ some code
      → t ≡ Event.wait pid 5 ∷ Event.killpg pid sigkill ∷ Event.wait pid 5 ∷ u
      → Reaped pid u t

-- These handlers call nothing.
pass_gone-history : (e : Exc) (h : Harness) (t : History) → (pass_gone e h t).2 ≡ t
unfolding pass_gone pure raise
pass_gone-history (os_error OsError.process_lookup m) h t = refl
pass_gone-history (os_error k m) h t = refl
pass_gone-history e h t = refl

pass_gone_or_foreign-history :
    (e : Exc) (h : Harness) (t : History) → (pass_gone_or_foreign e h t).2 ≡ t
unfolding pass_gone_or_foreign pure raise
pass_gone_or_foreign-history (os_error OsError.process_lookup m) h t = refl
pass_gone_or_foreign-history (os_error OsError.permission m) h t = refl
pass_gone_or_foreign-history (os_error k m) h t = refl
pass_gone_or_foreign-history e h t = refl

recover-history :
    {A : Type 0} (r : Result A) (handler : Exc → Exec Harness A) (h : Harness) (t : History)
    → ((e : Exc) (h : Harness) (t : History) → (handler e h t).2 ≡ t)
    → (recover r handler h t).2 ≡ t
unfolding recover
recover-history (ok a) handler h t k = refl
recover-history (raised e) handler h t k = k e h t
recover-history diverged handler h t k = refl

module _ ⦃host : Env⦄ (pid : ℕ) (u : History) where
  killed-Reaped :
      (o : Option ℤ) (h : Harness) (t : History)
      → t ≡ Event.killpg pid sigkill ∷ Event.wait pid 5 ∷ u
      → host.wait pid 5 u ≡ none
      → host.wait pid 5 t ≡ o
      → (killed o h (Event.wait pid 5 ∷ t)).0 ≡ ok tt
      → Reaped pid u (killed o h (Event.wait pid 5 ∷ t)).2
  unfolding killed pure raise
  killed-Reaped none h t is first second e = absurd (cc)
  killed-Reaped (some code) h t is first second e = late code first (cc) (cc)

  after_kill-Reaped :
      (r : Result (Unit {0})) (h : Harness) (t : History)
      → t ≡ Event.killpg pid sigkill ∷ Event.wait pid 5 ∷ u
      → host.wait pid 5 u ≡ none
      → let run = continue r (λ _. Calls.wait pid 5 >>= killed) h t in
        run.0 ≡ ok tt → Reaped pid u run.2
  unfolding continue ◌>>=◌ Calls.wait
  after_kill-Reaped (ok v) h t is first e = killed-Reaped _ h t is first refl e
  after_kill-Reaped (raised x) h t is first e = absurd (cc)
  after_kill-Reaped diverged h t is first e = absurd (cc)

  kill_quietly-history :
      (h : Harness) (t : History) → (kill_quietly pid h t).2 ≡ Event.killpg pid sigkill ∷ t
  unfolding kill_quietly catch Calls.killpg
  kill_quietly-history h t = recover-history _ pass_gone_or_foreign h _ pass_gone_or_foreign-history

  reap_or_kill-Reaped :
      (o : Option ℤ) (h : Harness)
      → host.wait pid 5 u ≡ o
      → let run = reap_or_kill pid o h (Event.wait pid 5 ∷ u) in run.0 ≡ ok tt → Reaped pid u run.2
  unfolding reap_or_kill pure ◌>>=◌
  reap_or_kill-Reaped (some code) h first e = in_time code first refl
  reap_or_kill-Reaped none h first e =
      after_kill-Reaped _ _ _ (kill_quietly-history h (Event.wait pid 5 ∷ u)) first e

  reap-Reaped : (h : Harness) → (reap pid h u).0 ≡ ok tt → Reaped pid u (reap pid h u).2
  unfolding reap ◌>>=◌ continue Calls.wait
  reap-Reaped h e = reap_or_kill-Reaped (host.wait pid 5 u) h refl e

module _ ⦃host : Env⦄ (n : ℕ) where
  abbrev told : History → History
  told u = Event.killpg (suc n) sigterm ∷ u

  after_term-Reaped :
      (r : Result (Unit {0})) (h : Harness) (u t : History)
      → t ≡ told u
      → let run = continue r (λ _. reap (suc n)) h t in
        run.0 ≡ ok tt → Reaped (suc n) (told u) run.2
  unfolding continue
  after_term-Reaped (ok v) h u t is e =
      let step : (reap (suc n) h t).0 ≡ ok tt → Reaped (suc n) (told u) (reap (suc n) h t).2 =
        rw is (reap-Reaped (suc n) (told u) h) in
      step e
  after_term-Reaped (raised x) h u t is e = absurd (cc)
  after_term-Reaped diverged h u t is e = absurd (cc)

  is_server-own : (server : Option ℕ) → server ≡ some (suc n) → is_server (suc n) server ≡ true
  is_server-own none e = absurd (cc)
  is_server-own (some own) e = ground arith

  stop_recorded-Reaped :
      (server : Option ℕ) (h : Harness) (u : History)
      → server ≡ some (suc n)
      → let run = stop_recorded (pos (suc n)) server h u in
        run.0 ≡ ok tt → Reaped (suc n) (told u) run.2
  unfolding stop_recorded catch Calls.killpg ◌>>=◌
  stop_recorded-Reaped server h u ours = rw (is_server-own server ours) (
      after_term-Reaped _ _ u _ (
        recover-history (of_os (host.killpg (suc n) sigterm u)) pass_gone h (told u)
          pass_gone-history))

  recorded-Reaped :
      (x : Result ℤ × Harness × History) (h : Harness)
      → x.0 ≡ ok (pos (suc n))
      → x.1 ≡ h
      → h.server ≡ some (suc n)
      → let run =
          continue x.0 (λ pid. gets (λ (h : Harness). h.server) >>= stop_recorded pid) x.1 x.2 in
        run.0 ≡ ok tt → Reaped (suc n) (told x.2) run.2
  unfolding continue ◌>>=◌ gets
  recorded-Reaped (r, h', u) h there stays ours =
      rw (there, stays) (stop_recorded-Reaped h.server h u ours)

-- Where the state file names the server that this run has started, `stop_server` returns only if that
-- process, told to end, has ended within five seconds, or has been killed and has ended within five more.
pub stop_server-Reaped :
    ⦃host : Env⦄ (n : ℕ) (h : Harness) (t : History)
    → (recorded_pid h t).0 ≡ ok (pos (suc n))
    → h.server ≡ some (suc n)
    → (stop_server h t).0 ≡ ok tt
    → Reaped (suc n) (told n (recorded_pid h t).2) (stop_server h t).2
unfolding stop_server ◌>>=◌
stop_server-Reaped n h t there ours e =
    let stays : (recorded_pid h t).1 ≡ h =
      (recorded_pid-Tidy {D = Unit {0}} free {I = λ h'. h' ≡ h} {P = AnyEvent} (λ e c. tt)).state h
        t refl in
    recorded-Reaped n (recorded_pid h t) h there stays ours e
