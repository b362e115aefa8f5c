-- ===== src/Harness/Passing.antt =====
-- What exit code 0 says: the test command has been run, and has passed.
use mathlib.Core.Path.{subst}
use mathlib.Core.Logic.{◌⊎◌}
use canokey_usbip.Prelude.{
  ◌≡◌, ◌∙◌, sym, refl, ap, Bool, true, false, ℤ, pos, is_zero, if◌then◌else◌, inl, inr,
}
use canokey_usbip.Host.{
  FilePath, History, Env, Exc, Exec, Result, ok, raised, diverged, gets, modify, zoom, continue,
  raise, ◌>>=◌,
}
use canokey_usbip.Host.Calls
use canokey_usbip.Host.Plain.{free, IsPlain, plain_rules}
use canokey_usbip.Host.Arrives.{
  Arrives, Arrives-gets, Arrives-bind, Arrives-look, Arrives-catch, Arrives-finally,
}
use canokey_usbip.Options.{Options}
use canokey_usbip.Platform.{Status}
use canokey_usbip.Harness.State.{Harness}
use canokey_usbip.Harness.Trial.{run_test}
use canokey_usbip.Harness.Timeout.{EndsTest, run_test-EndsTest}
use canokey_usbip.Platform.Reading.{
  prepare_host-Gentle, matching_usb_devices-Gentle, wait_ready-Gentle,
}
use canokey_usbip.Platform.Harmless.{attach-Gentle, set_usb_identity-Gentle}
use canokey_usbip.Harness.Tidy.{on_platform-Tidy, acquire_lock-Tidy, resolve_core-Tidy, build-Tidy}
use canokey_usbip.Harness.TidyRun.{
  write_state-Tidy, start_server-Tidy, base_metadata-Tidy, initial_metadata-Tidy,
  save_metadata-Tidy,
}
use canokey_usbip.Harness.RunRules.{TidyRun, self-TidyRun, enter-TidyRun, lifecycle-TidyRun}
use canokey_usbip.Harness.Lasting.{Lasting, AnyEvent, any_event}
use canokey_usbip.Harness.ExitCode.{execute_run-Leads}
use canokey_usbip.Harness.FirstFailure.{cleanup-Within}
use canokey_usbip.Harness.Execute.{
  Run, self, report_test, drive_device, report_build, lifecycle, handle, report_failure, cleanup,
  guarded, execute_run,
}
use canokey_usbip.Harness.Deserving.{PassesTest, Deserves, EndsTest-Deserves, settled}

module _ ⦃host : Env⦄ (o : Options) where
  -- The options of a run stay these.
  abbrev HasOptions : Harness → Type 0
  HasOptions h = h.options ≡ o

  abbrev Kept : Run → Type 0
  Kept r = HasOptions r.harness

  options_last : Lasting HasOptions
  options_last = record {
    moved = λ h p j. j;
    served = λ h pid j. j;
    resolved = λ h core j. j;
    built = λ h b j. j;
    noted = λ h d e j. j;
  }

  abbrev IsEarned : Run → History → Type 0
  IsEarned r t = Deserves o r.result t

  module _ (temp : FilePath) where
    reported :
        (x : Result ℤ × Harness × History) (r : Run)
        → ((code : ℤ) → x.0 ≡ ok code → Deserves o code x.2)
        → let run = continue x.0 (report_test temp) (record r { harness = x.1 }) x.2 in
          run.0 ≡ ok tt → IsEarned run.1 run.2
    unfolding continue report_test modify
    reported (ok code, h, t) r k e = k code refl
    reported (raised y, h, t) r k e = absurd (cc)
    reported (diverged, h, t) r k e = absurd (cc)

    tested :
        (ready : Status)
        → Arrives Kept IsEarned (self (run_test ready) >>= λ code. report_test temp code)
    unfolding self zoom ◌>>=◌
    tested ready = record {
      at = λ r t u i e.
          reported (run_test ready r.harness t) r
            (λ code x. EndsTest-Deserves o code _ (
              subst (λ (p : Options). EndsTest p code (run_test ready r.harness t).2) i
                (run_test-EndsTest ready r.harness t code x)))
            e;
    }

    handle-Arrives : (e : Exc) → IsPlain e → Arrives Kept IsEarned (handle temp e)
    unfolding handle report_failure modify raise ◌>>=◌ continue Calls.print_error
    handle-Arrives (Exc.phase_error phase why code) p = record { at = λ r t u i e. inl (rw p refl) }
    handle-Arrives (Exc.harness_error why) p = record { at = λ r t u i e. inl refl }
    handle-Arrives (Exc.pcsc_query_error why) p = record { at = λ r t u i e. inl refl }
    handle-Arrives (Exc.os_error k why) p = record { at = λ r t u i e. inl refl }
    handle-Arrives (Exc.timeout_expired why) p = record { at = λ r t u i e. inl refl }
    handle-Arrives e p = record { at = λ r t u i x. absurd (cc) }

    first :
        {A B : Type 0} (m : Exec Run A) (f : A → Exec Run B)
        → TidyRun (Unit {0}) HasOptions AnyEvent m
        → ((a : A) → Arrives Kept IsEarned (f a))
        → Arrives Kept IsEarned (m >>= f)
    first m f w k = Arrives-bind m f w k

    drive_device-Arrives : Arrives Kept IsEarned (drive_device temp)
    unfolding drive_device
    drive_device-Arrives =
        search
          (
            tested,
            first,
            plain_rules,
            any_event.calm,
            any_event.starts,
            options_last.moved,
            options_last.served,
            self-TidyRun (Unit {0}) HasOptions,
            enter-TidyRun (Unit {0}) HasOptions,
            on_platform-Tidy,
            prepare_host-Gentle,
            matching_usb_devices-Gentle,
            attach-Gentle,
            wait_ready-Gentle,
            write_state-Tidy,
            start_server-Tidy,
            free,
          )
          depth 60

    chosen :
        (binary : FilePath) (b : Bool)
        → o.build_only ≡ b
        → Arrives Kept IsEarned (if b then report_build temp binary else drive_device temp)
    chosen binary true e = record { at = λ r t u i x. inr (inl e) }
    chosen binary false e = drive_device-Arrives

    choosing :
        (binary : FilePath)
        → Arrives Kept IsEarned (
            gets (λ (r : Run). r.harness.options.build_only) >>= λ b.
            if b then report_build temp binary else drive_device temp)
    choosing binary =
        Arrives-look _ _ λ r i. chosen binary _ (ap (λ (p : Options). p.build_only) (sym i))

    lifecycle-Arrives : Arrives Kept IsEarned (lifecycle temp)
    unfolding lifecycle
    lifecycle-Arrives =
        search
          (
            choosing,
            first,
            plain_rules,
            any_event.calm,
            options_last.moved,
            self-TidyRun (Unit {0}) HasOptions,
            enter-TidyRun (Unit {0}) HasOptions,
            on_platform-Tidy,
            set_usb_identity-Gentle,
            acquire_lock-Tidy,
            resolve_core-Tidy,
            build-Tidy,
            initial_metadata-Tidy,
            save_metadata-Tidy,
            free,
          )
          depth 60

    -- The cleanup takes nothing back.
    cleanup-IsEarned :
        (r : Run) (t : History) → IsEarned r t → IsEarned (cleanup temp r t).1 (cleanup temp r t).2
    cleanup-IsEarned r t earned =
        let w = cleanup-Within temp r in
        settled o r.result (cleanup temp r t).1 t (cleanup temp r t).2 earned
          (elim (w.state r t (inl (refl, refl, refl))) [
            | inl (e, p, f) ↦ inl e
            | inr (z, (e, p, f)) ↦ inr (rw e refl)
          ])
          (w.events r t (inl (refl, refl, refl)))

    guarded-Arrives : Arrives Kept IsEarned (guarded temp)
    unfolding guarded
    guarded-Arrives =
        Arrives-finally _ _
          (Arrives-catch _ _ (lifecycle-TidyRun (Unit {0}) options_last any_event free temp)
            lifecycle-Arrives handle-Arrives)
          cleanup-IsEarned

    returned : Arrives Kept IsEarned (guarded temp >>= λ u. gets (λ r. r.result))
    returned = Arrives-gets (guarded temp) (λ r. r.result) guarded-Arrives

    execute_run-Arrives : Arrives Kept IsEarned (execute_run temp)
    unfolding execute_run Calls.mkdir
    execute_run-Arrives =
        search
          (
            returned,
            first,
            plain_rules,
            any_event.calm,
            self-TidyRun (Unit {0}) HasOptions,
            base_metadata-Tidy,
            save_metadata-Tidy,
            free,
          )
          depth 40

-- A run that returns exit code 0 either was to build only, or has started its test command, and that has
-- ended within the timeout with exit code 0.
pub execute-PassesTest :
    ⦃host : Env⦄ (temp : FilePath) (r : Run) (t : History)
    → (execute_run temp r t).0 ≡ ok (pos 0)
    → let o = r.harness.options in (o.build_only ≡ true) ⊎ PassesTest o (execute_run temp r t).2
execute-PassesTest temp r t runs =
    let same = (execute_run-Leads temp).at r t (pos 0) runs in
    elim ((execute_run-Arrives r.harness.options temp).at r t (pos 0) refl runs) [
      | inl fails ↦ let no : true ≡ false = ap is_zero same ∙ fails in absurd (cc)
      | inr earned ↦ earned
    ]
