-- ===== src/Harness/GivingUp.antt =====
-- `cleanup` gives up the attachment of a run.
use canokey_usbip.Prelude.{◌≡◌, String, Bool, true, false, ℤ, inl, inr, is_zero, Bool-cases}
use canokey_usbip.Host.{FilePath, History, Env, Exec, ok, pure}
use canokey_usbip.Host.Calls
use canokey_usbip.Host.Within.{Within, Within-catch}
use canokey_usbip.Host.Plain.{free, IsPlain, Anything, plain_rules}
use canokey_usbip.Host.Reaches.{Reaches, Reaches-then, Reaches-catch_all, Ends-ok, Ends-Within}
use canokey_usbip.Host.Finals.{Reaches-finally_block, Reaches-gets}
use canokey_usbip.Host.Parts.{Reaches-look, Reaches-zoom, Reaches-before}
use canokey_usbip.Platform.{detach}
use canokey_usbip.Platform.GivingUp.{HasGivenUp, detach-HasGivenUp}
use canokey_usbip.Harness.State.{on_platform}
use canokey_usbip.Harness.Lasting.{AnyEvent, any_event, anything}
use canokey_usbip.Harness.Cleanup.{Outlasts, rest-Keeping}
use canokey_usbip.Harness.RunRules.{lifecycle-TidyRun, handle-TidyRun}
use canokey_usbip.Harness.Execute.{
  Run, self, fail_cleanup, detach_owned_port, cleanup, guarded, execute_run,
}

-- The run owns no attachment, or none with a port that it knows.
abbrev Gives : Run → Type 0
Gives r = HasGivenUp r.harness.platform

fail_cleanup-Gives : (why : String) (r : Run) → Gives r → Gives (fail_cleanup why r)
unfolding fail_cleanup
fail_cleanup-Gives why r h = elim (Bool-cases (is_zero r.result)) [
  | inl e ↦ rw e h
  | inr e ↦ rw e h
]

module _ ⦃host : Env⦄ (temp : FilePath)
    (installed : (t : History) → host.which "usbip" t ≡ true) where
  detaching-Gives : Reaches Anything Gives Gives (self (on_platform detach))
  unfolding self
  detaching-Gives =
      Reaches-zoom _ _ Gives Gives _ (λ h r g. g) (λ h r g. g)
        (Reaches-zoom _ _ (λ h. HasGivenUp h.platform) (λ h. HasGivenUp h.platform) _ (λ p h g. g)
          (λ p h g. g) (detach-HasGivenUp installed))

  kept-Gives :
      (m : Exec Run (Unit {0}))
      → Within (Unit {0}) Gives AnyEvent IsPlain m
      → Reaches Gives Gives Anything m
  kept-Gives m w = record { at = Ends-Within m w (λ r g. g) (λ r g. tt) }

  detach_owned_port-Gives :
      (b : Bool)
      → Reaches
          (λ r. r.harness.platform.owns_attachment ≡ b)
          Gives
          Anything
          (detach_owned_port temp b)
  unfolding detach_owned_port pure Calls.write_text
  detach_owned_port-Gives false = record { at = λ r t h. inl h }
  detach_owned_port-Gives true = record {
    at = λ r t h.
        (Reaches-catch_all _ _ detaching-Gives
            (λ e. kept-Gives _ (search (plain_rules, fail_cleanup-Gives) depth 20))).at
          r t tt;
  }

  outlasts : Outlasts AnyEvent Gives (λ h. HasGivenUp h.platform)
  outlasts = record {
    inside = λ r g. g;
    outside = λ h r i j. j;
    failed = fail_cleanup-Gives;
    recorded = λ d r g. g;
  }

  cleanup-Gives : Reaches Anything Gives Anything (cleanup temp)
  unfolding cleanup
  cleanup-Gives =
      Reaches-then _ _ (λ s. tt)
        λ _.
          Reaches-then _ _ (λ s. tt)
            λ _.
              Reaches-then _ _ (λ s. tt)
                λ _. Reaches-look _ _ λ owns.
                  Reaches-before _ _ (λ s g. tt) (detach_owned_port-Gives owns)
                    λ u. rest-Keeping free temp any_event.calm any_event.ends outlasts (λ r g. tt)

  guarded-Gives : Reaches Anything Gives Anything (guarded temp)
  unfolding guarded
  guarded-Gives =
      Reaches-finally_block Gives _ _
        (Within-catch _ _ (lifecycle-TidyRun (Unit {0}) anything any_event free temp)
          (handle-TidyRun (Unit {0}) Anything any_event.calm temp))
        cleanup-Gives

  execute_run-Gives : Reaches Anything Gives Anything (execute_run temp)
  unfolding execute_run
  execute_run-Gives =
      Reaches-then _ _ (λ s. tt)
        λ _.
          Reaches-then _ _ (λ s. tt)
            λ _.
              Reaches-then _ _ (λ s. tt)
                λ _.
                  Reaches-then _ _ (λ s. tt)
                    λ _.
                      Reaches-then _ _ (λ s. tt)
                        λ _.
                          Reaches-then _ _ (λ s. tt)
                            λ _.
                              Reaches-then _ _ (λ s. tt)
                                λ _. Reaches-gets (guarded temp) _ guarded-Gives

-- With usbip installed, a run that returns its exit code owns no attachment, or one for which no port is
-- recorded.
pub execute-HasGivenUp :
    ⦃host : Env⦄ (temp : FilePath) (r : Run) (t : History) (code : ℤ)
    → ((t : History) → host.which "usbip" t ≡ true)
    → (execute_run temp r t).0 ≡ ok code
    → HasGivenUp (execute_run temp r t).1.harness.platform
execute-HasGivenUp temp r t code installed runs =
    Ends-ok Gives (execute_run temp r t) code runs ((execute_run-Gives temp installed).at r t tt)
