-- ===== src/Harness/FirstFailure.antt =====
-- `cleanup` and the failure of a run: what goes wrong there counts only for a run that has worked so far.
use mathlib.Core.Logic.{◌⊎◌}
use canokey_usbip.Prelude.{
  ◌≡◌, refl, String, true, false, pos, is_zero, is_some, Bool-cases, inl, inr, sym,
}
use canokey_usbip.Host.{FilePath, History, Env}
use canokey_usbip.Host.Within.{Within}
use canokey_usbip.Host.Plain.{free, IsPlain, Anything}
use canokey_usbip.Harness.Lasting.{AnyEvent, any_event, anything}
use canokey_usbip.Harness.Cleanup.{Outlasts, cleanup-Keeping}
use canokey_usbip.Harness.Execute.{Run, fail_cleanup, cleanup}

-- The run ends as it stood.
abbrev pub EndsSame : Run → Run → Type 0
EndsSame r r' = (r'.result ≡ r.result) × (r'.phase ≡ r.phase) × (r'.failure ≡ r.failure)

-- The run ends in a failure of its cleanup.
abbrev pub FailsCleanup : Run → Type 0
FailsCleanup r' = (r'.result ≡ pos 1) × (r'.phase ≡ "cleanup") × (is_some r'.failure ≡ true)

abbrev pub CleanupOutcome : Run → Run → Type 0
CleanupOutcome r r' = EndsSame r r' ⊎ ((is_zero r.result ≡ true) × FailsCleanup r')

fail_cleanup-CleanupOutcome :
    (r : Run) (why : String) (r' : Run)
    → CleanupOutcome r r'
    → CleanupOutcome r (fail_cleanup why r')
unfolding fail_cleanup
fail_cleanup-CleanupOutcome r why r' (inl (e, p, f)) = elim (Bool-cases (is_zero r'.result)) [
  | inl z ↦ rw z (inr (rw (sym e) z, (refl, refl, refl)))
  | inr z ↦ rw z (inl (e, p, f))
]
fail_cleanup-CleanupOutcome r why r' (inr (z, (e, p, f))) =
    let failed : is_zero r'.result ≡ false = rw e refl in rw failed (inr (z, (e, p, f)))

outlasts : (r : Run) → Outlasts AnyEvent (CleanupOutcome r) Anything
outlasts r = record {
  inside = λ r' o. tt;
  outside = λ h r' o j. o;
  failed = λ why r' o. fail_cleanup-CleanupOutcome r why r' o;
  recorded = λ d r' o. o;
}

pub cleanup-Within :
    ⦃host : Env⦄ (temp : FilePath) (r : Run)
    → Within (Unit {0}) (CleanupOutcome r) AnyEvent IsPlain (cleanup temp)
cleanup-Within temp r =
    cleanup-Keeping free temp any_event.calm any_event.ends (outlasts r) anything.moved (λ r' o. tt)

-- However the steps of the cleanup end, a run that has failed keeps its exit code, phase and failure; one
-- that has worked keeps them too, or ends with exit code 1 in the phase "cleanup" and with a failure.
pub cleanup-CleanupOutcome :
    ⦃host : Env⦄ (temp : FilePath) (r : Run) (t : History) → CleanupOutcome r (cleanup temp r t).1
cleanup-CleanupOutcome temp r t = (cleanup-Within temp r).state r t (inl (refl, refl, refl))
