-- ===== src/Harness/Deserving.antt =====
-- What a run may end with exit code 0 for.
use mathlib.Core.Logic.{◌⊎◌}
use canokey_usbip.Prelude.{
  ◌≡◌, ◌∙◌, refl, ap, ℕ, zero, suc, negsuc, some, String, true, false, Bool-cases, List, ◌∷◌, ℤ,
  pos, is_zero, inl, inr,
}
use canokey_usbip.Host.{Event, History, Env, done}
use canokey_usbip.Host.Emits.{Extends, same, later}
use canokey_usbip.Options.{Options}
use canokey_usbip.Harness.Timeout.{test_argv, EndsTest, in_time, told, killed}
use canokey_usbip.Harness.Lasting.{AnyEvent}
use canokey_usbip.Harness.Execute.{Run}

is_zero-pos : (n : ℤ) → is_zero n ≡ true → n ≡ pos 0
is_zero-pos (pos zero) h = refl
is_zero-pos (pos (suc n)) h = absurd (cc)
is_zero-pos (negsuc n) h = absurd (cc)

module _ ⦃host : Env⦄ (o : Options) where
  -- The test command of these options has been started, and has ended within their timeout with exit code
  -- 0.
  pub data PassesTest : History → Type 0 where
    passed :
        {u : History} (pid : ℕ) (environment : List (String × String))
        → host.popen (test_argv o) (some o.caller_dir) environment u ≡ done pid
        → host.wait pid o.timeout (Event.popen (test_argv o) (some o.caller_dir) environment ∷ u)
          ≡ some (pos 0)
        → PassesTest (
            Event.wait pid o.timeout
            ∷ Event.popen (test_argv o) (some o.caller_dir) environment
            ∷ u)
    before : {t : History} (e : Event) → PassesTest t → PassesTest (e ∷ t)

  PassesTest-later : {t u : History} → Extends AnyEvent t u → PassesTest t → PassesTest u
  PassesTest-later same h = h
  PassesTest-later (later e p x) h = before e (PassesTest-later x h)

  -- A code that is not 0, a run that only builds, or a test that has passed.
  abbrev pub Deserves : ℤ → History → Type 0
  Deserves code t = (is_zero code ≡ false) ⊎ ((o.build_only ≡ true) ⊎ PassesTest t)

  pub EndsTest-Deserves : (code : ℤ) (t : History) → EndsTest o code t → Deserves code t
  EndsTest-Deserves code t ends = elim ends.outcome [
    | in_time is left ↦ elim (Bool-cases (is_zero code)) [
      | inl works ↦ rw left (
          inr (
            inr (
              passed ends.pid ends.environment ends.started
                (is ∙ ap some (is_zero-pos code works)))))
      | inr fails ↦ inl fails
    ]
    | told is code_is left ↦ inl (rw code_is refl)
    | killed is code_is left ↦ inl (rw code_is refl)
  ]

  pub settled :
      (code : ℤ) (r : Run) (t u : History)
      → Deserves code t
      → (r.result ≡ code) ⊎ (is_zero r.result ≡ false)
      → Extends AnyEvent t u
      → Deserves r.result u
  settled code r t u earned (inr fails) x = inl fails
  settled code r t u (inl fails) (inl e) x = inl (rw e fails)
  settled code r t u (inr (inl built)) (inl e) x = inr (inl built)
  settled code r t u (inr (inr passes)) (inl e) x = inr (inr (PassesTest-later x passes))
