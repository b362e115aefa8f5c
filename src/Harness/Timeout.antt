-- ===== src/Harness/Timeout.antt =====
-- How `run_test` ends the test command.
use canokey_usbip.Prelude.{◌≡◌, refl, ℕ, ℤ, pos, Option, none, some, String, List, [], ◌∷◌}
use canokey_usbip.Host.{
  Event, History, sigterm, sigkill, Env, Os, done, failed, Exec, Result, ok, raised, diverged, pure,
  gets, raise, continue, ◌>>=◌,
}
use canokey_usbip.Host.Calls
use mathlib.Core.Option.{get_or}
use canokey_usbip.Host.Calls.{of_os}
use canokey_usbip.Host.Leads.{Leads, Leads-bind}
use canokey_usbip.Options.{Options, CoreSource}
use canokey_usbip.Platform.{Status}
use canokey_usbip.Harness.State.{Harness}
use canokey_usbip.Harness.Build.{asserted}
use canokey_usbip.Harness.Trial.{kill_test, end_test, launch_test, run_test}

-- What becomes of the test command, from the history `u` at which it runs: it ends in time and its code
-- is the result; or it is told to end, and within five seconds it does, or it is killed.
pub data Outcome ⦃host : Env⦄ (pid timeout : ℕ) (u : History) (code : ℤ) (t : History)
    : Type 0 where
  in_time :
      host.wait pid timeout u ≡ some code
      → t ≡ Event.wait pid timeout ∷ u
      → Outcome pid timeout u code t
  told :
      host.wait pid timeout u ≡ none
      → code ≡ pos 124
      → t ≡ Event.wait pid 5 ∷ Event.killpg pid sigterm ∷ Event.wait pid timeout ∷ u
      → Outcome pid timeout u code t
  killed :
      host.wait pid timeout u ≡ none
      → code ≡ pos 124
      → t
        ≡ Event.wait_exit pid
          ∷ Event.killpg pid sigkill
          ∷ Event.wait pid 5
          ∷ Event.killpg pid sigterm
          ∷ Event.wait pid timeout
          ∷ u
      → Outcome pid timeout u code t

abbrev Triple : Type 0
Triple = Result ℤ × Harness × History

module _ ⦃host : Env⦄ (pid : ℕ) where
  after_kill :
      (r : Result (Unit {0})) (h : Harness) (t : History) (code : ℤ)
      → let run = continue r (λ _. Calls.wait_exit pid >>= λ _. pure (pos 124)) h t in
        run.0 ≡ ok code → (code ≡ pos 124) × (run.2 ≡ Event.wait_exit pid ∷ t)
  unfolding continue ◌>>=◌ Calls.wait_exit pure
  after_kill (ok u) h t code e = (cc, refl)
  after_kill (raised x) h t code e = absurd (cc)
  after_kill diverged h t code e = absurd (cc)

  module _ (timeout : ℕ) (u : History) (late : host.wait pid timeout u ≡ none) where
    abbrev told_at : History
    told_at = Event.wait pid 5 ∷ Event.killpg pid sigterm ∷ Event.wait pid timeout ∷ u

    kill_test-Outcome :
        (o : Option ℤ) (h : Harness) (code : ℤ)
        → (kill_test pid o h told_at).0 ≡ ok code
        → Outcome pid timeout u code (kill_test pid o h told_at).2
    unfolding kill_test pure ◌>>=◌ Calls.killpg
    kill_test-Outcome (some c) h code e = Outcome.told late (cc) refl
    kill_test-Outcome none h code e =
        let (is, left) =
          after_kill (of_os (host.killpg pid sigkill told_at)) h
            (Event.killpg pid sigkill ∷ told_at) code e in
        Outcome.killed late is left

    after_term :
        (r : Result (Unit {0})) (h : Harness) (code : ℤ)
        → let run =
            continue r
              (λ _. Calls.wait pid 5 >>= kill_test pid)
              h
              (Event.killpg pid sigterm ∷ Event.wait pid timeout ∷ u) in
          run.0 ≡ ok code → Outcome pid timeout u code run.2
    unfolding continue ◌>>=◌ Calls.wait
    after_term (ok v) h code e = kill_test-Outcome _ h code e
    after_term (raised x) h code e = absurd (cc)
    after_term diverged h code e = absurd (cc)

  end_test-Outcome :
      (timeout : ℕ) (u : History) (o : Option ℤ) (h : Harness) (code : ℤ)
      → host.wait pid timeout u ≡ o
      → let run = end_test pid o h (Event.wait pid timeout ∷ u) in
        run.0 ≡ ok code → Outcome pid timeout u code run.2
  unfolding end_test pure ◌>>=◌ Calls.killpg
  end_test-Outcome timeout u (some c) h code is e = Outcome.in_time (cc) refl
  end_test-Outcome timeout u none h code is e = after_term timeout u is _ h code e

  waited-Outcome :
      (timeout : ℕ) (h : Harness) (t : History) (code : ℤ)
      → let run = (Calls.wait pid timeout >>= end_test pid) h t in
        run.0 ≡ ok code → Outcome pid timeout t code run.2
  unfolding ◌>>=◌ continue Calls.wait
  waited-Outcome timeout h t code e =
      end_test-Outcome timeout t (host.wait pid timeout t) h code refl e

-- The command of `run_test`.
abbrev pub test_argv : Options → List String
test_argv o = "bash" ∷ "-lc" ∷ get_or o.test_command "" ∷ []

module _ ⦃host : Env⦄ where
  -- The test command has been started as `pid`, and then has this outcome.
  pub record EndsTest (o : Options) (code : ℤ) (t : History) : Type 0 where
    pub pid : ℕ
    pub environment : List (String × String)
    pub before : History
    pub started : host.popen (test_argv o) (some o.caller_dir) environment before ≡ done pid
    pub outcome :
        Outcome pid o.timeout
          (Event.popen (test_argv o) (some o.caller_dir) environment ∷ before)
          code
          t

  launched-EndsTest :
      (o : Options) (environment : List (String × String)) (r : Os ℕ) (h : Harness) (t : History)
      (code : ℤ)
      → host.popen (test_argv o) (some o.caller_dir) environment t ≡ r
      → let run =
          continue
            (of_os r)
            (λ pid. Calls.wait pid o.timeout >>= end_test pid)
            h
            (Event.popen (test_argv o) (some o.caller_dir) environment ∷ t) in
        run.0 ≡ ok code → EndsTest o code run.2
  unfolding continue
  launched-EndsTest o environment (failed k m) h t code is e = absurd (cc)
  launched-EndsTest o environment (done pid) h t code is e = record {
    pid = pid;
    environment = environment;
    before = t;
    started = is;
    outcome = waited-Outcome pid o.timeout h _ code e;
  }

  started-EndsTest :
      (o : Options) (environment : List (String × String))
      → Leads
          (λ code (h : Harness). EndsTest o code)
          (Calls.popen (test_argv o) (some o.caller_dir) environment >>= λ pid.
            Calls.wait pid o.timeout >>= end_test pid)
  unfolding ◌>>=◌ Calls.popen
  started-EndsTest o environment = record {
    at = λ h t code e. launched-EndsTest o environment _ h t code refl e;
  }

  asserted-EndsTest :
      (o : Option CoreSource) (rest : CoreSource → Harness → Exec Harness ℤ)
      → ((core : CoreSource) (h : Harness)
          → Leads (λ code (h' : Harness). EndsTest h.options code) (rest core h))
      → (h : Harness) (t : History) (code : ℤ)
      → let run = (asserted o >>= λ core. gets (λ (h' : Harness). h') >>= rest core) h t in
        run.0 ≡ ok code → EndsTest h.options code run.2
  unfolding asserted ◌>>=◌ continue gets pure raise
  asserted-EndsTest none rest k h t code e = absurd (cc)
  asserted-EndsTest (some core) rest k h t code e = (k core h).at h t code e

  launch_test-EndsTest :
      (ready : Status) (core : CoreSource) (h : Harness)
      → Leads (λ code (h' : Harness). EndsTest h.options code) (launch_test ready core h)
  unfolding launch_test
  launch_test-EndsTest ready core h = Leads-bind _ _ _ λ _. Leads-bind _ _ _ λ _.
      Leads-bind _ _ _ λ _. Leads-bind _ _ _ λ _. Leads-bind _ _ _ λ _. started-EndsTest h.options _

  pub run_test-EndsTest :
      (ready : Status) (h : Harness) (t : History) (code : ℤ)
      → (run_test ready h t).0 ≡ ok code
      → EndsTest h.options code (run_test ready h t).2
  unfolding run_test gets ◌>>=◌ continue
  run_test-EndsTest ready h t code e =
      asserted-EndsTest h.core (launch_test ready) (launch_test-EndsTest ready) h t code e
