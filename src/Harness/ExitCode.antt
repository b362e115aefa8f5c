-- ===== src/Harness/ExitCode.antt =====
-- The exit code of a run and the failure that it notes: one is zero exactly when the other is none.
use canokey_usbip.Prelude.{◌≡◌, refl, String, none, ℤ, is_zero, is_some, not, pos, arith}
use canokey_usbip.Host.{FilePath, Env, Exec, Exc, History, ok, gets, raise, modify, ◌>>=◌}
use canokey_usbip.Host.Calls
use canokey_usbip.Host.Within.{Within, Within-zoom}
use canokey_usbip.Host.Reaches.{Ends-ok, Reaches, Reaches-if, Reaches-bind, Reaches-catch}
use canokey_usbip.Host.Finals.{Reaches-gets, Reaches-finally}
use canokey_usbip.Host.Leads.{Leads, Leads-bind}
use canokey_usbip.Host.Plain.{free, Anything, IsPlain, plain_rules}
use canokey_usbip.Platform.Reading.{
  prepare_host-Gentle, matching_usb_devices-Gentle, wait_ready-Gentle,
}
use canokey_usbip.Platform.Harmless.{attach-Gentle, set_usb_identity-Gentle}
use canokey_usbip.Harness.State.{Harness}
use canokey_usbip.Harness.Lasting.{AnyEvent, anything, any_event}
use canokey_usbip.Harness.Tidy.{
  Tidy, on_platform-Tidy, acquire_lock-Tidy, resolve_core-Tidy, build-Tidy,
}
use canokey_usbip.Harness.TidyRun.{
  write_state-Tidy, start_server-Tidy, run_test-Tidy, base_metadata-Tidy, initial_metadata-Tidy,
  save_metadata-Tidy,
}
use canokey_usbip.Harness.Cleanup.{cleanup-Keeping}
use canokey_usbip.Harness.RunRules.{lifecycle-TidyRun}
use canokey_usbip.Harness.Execute.{
  started, Run, self, enter, report_test, drive_device, report_build, lifecycle, handle,
  fail_cleanup, guarded, execute_run,
}

-- Before the end of the test: result = 1, and no failure yet.
abbrev IsFresh : Run → Type 0
IsFresh r = (r.result ≡ pos 1) × (r.failure ≡ none)

-- A failure is noted exactly when the result is not zero.
abbrev IsConsistent : Run → Type 0
IsConsistent r = is_some r.failure ≡ not (is_zero r.result)

abbrev Stays : {A : Type 0} → Exec Run A → Type 0
Stays = Within (Unit {0}) IsFresh AnyEvent IsPlain

abbrev Settles : {A : Type 0} → Exec Run A → Type 0
Settles = Reaches IsFresh IsConsistent IsFresh

Settles-bind :
    {A B : Type 0} (m : Exec Run A) (f : A → Exec Run B)
    → Stays m
    → ((a : A) → Settles (f a))
    → Settles (m >>= f)
Settles-bind m f w k = Reaches-bind m f w (λ r h. h) k

self-Stays :
    {A : Type 0} (m : Exec Harness A) → Tidy (Unit {0}) Anything AnyEvent m → Stays (self m)
unfolding self
self-Stays m w = Within-zoom _ _ m w (λ s h. tt) (λ q s h j. h) (λ e p. p)

enter-Stays : (phase : String) → Stays (enter phase)
unfolding enter
enter-Stays phase = search plain_rules

module _ ⦃host : Env⦄ (temp : FilePath) where
  report_test-Settles : (code : ℤ) → Settles (report_test temp code)
  unfolding report_test modify
  report_test-Settles code = record { at = λ r t h. ground arith }

  drive_device-Settles : Settles (drive_device temp)
  unfolding drive_device
  drive_device-Settles =
      search
        (
          free, plain_rules, Settles-bind, report_test-Settles, self-Stays, enter-Stays,
          on_platform-Tidy, prepare_host-Gentle, matching_usb_devices-Gentle, attach-Gentle,
          wait_ready-Gentle, write_state-Tidy, start_server-Tidy, run_test-Tidy,
        )
        depth 60

  report_build-Settles : (binary : FilePath) → Settles (report_build temp binary)
  unfolding report_build modify ◌>>=◌ Calls.print
  report_build-Settles binary = record { at = λ r t h. ground arith }

  lifecycle-Settles : Settles (lifecycle temp)
  unfolding lifecycle
  lifecycle-Settles =
      search
        (
          free, plain_rules, Settles-bind, Reaches-if, self-Stays, enter-Stays, on_platform-Tidy,
          set_usb_identity-Gentle, drive_device-Settles, report_build-Settles, acquire_lock-Tidy,
          resolve_core-Tidy, build-Tidy, initial_metadata-Tidy, save_metadata-Tidy,
        )
        depth 60

  handle-settles : (e : Exc) → IsPlain e → Reaches IsFresh IsConsistent Anything (handle temp e)
  unfolding handle Calls.print_error modify ◌>>=◌ raise
  handle-settles (Exc.phase_error phase why code) p = record { at = λ r t h. ground arith }
  handle-settles (Exc.harness_error why) p = record { at = λ r t h. refl }
  handle-settles (Exc.pcsc_query_error why) p = record { at = λ r t h. refl }
  handle-settles (Exc.os_error k why) p = record { at = λ r t h. refl }
  handle-settles (Exc.timeout_expired why) p = record { at = λ r t h. refl }
  handle-settles e p = record { at = λ r t h. tt }

  fail_cleanup-IsConsistent :
      (why : String) (r : Run) → IsConsistent r → IsConsistent (fail_cleanup why r)
  unfolding fail_cleanup
  fail_cleanup-IsConsistent why r h = ground arith

  guarded-settles : Reaches IsFresh IsConsistent Anything (guarded temp)
  unfolding guarded
  guarded-settles =
      Reaches-finally _ _
        (Reaches-catch (Unit {0}) IsPlain _ _
          (λ r t h.
            (lifecycle-TidyRun (Unit {0}) {J = Anything} {P = AnyEvent} anything any_event free
                temp).errors
              r t tt)
          lifecycle-Settles handle-settles)
        (cleanup-Keeping free temp any_event.calm any_event.ends
          (record {
            inside = λ r h. tt;
            outside = λ q r h j. h;
            failed = fail_cleanup-IsConsistent;
            recorded = λ d r h. h;
          })
          (λ h p j. tt) (λ r h. tt))

  Prepares-bind :
      {A B : Type 0} (m : Exec Run A) (f : A → Exec Run B)
      → Stays m
      → ((a : A) → Reaches IsFresh IsConsistent Anything (f a))
      → Reaches IsFresh IsConsistent Anything (m >>= f)
  Prepares-bind m f w k = Reaches-bind m f w (λ r h. tt) k

  reported : Reaches IsFresh IsConsistent Anything (guarded temp >>= λ _. gets (λ r. r.result))
  reported = Reaches-gets (guarded temp) (λ r. r.result) guarded-settles

  execute_run-settles : Reaches IsFresh IsConsistent Anything (execute_run temp)
  unfolding execute_run Calls.mkdir
  execute_run-settles =
      search
        (
          free, plain_rules, Prepares-bind, reported, self-Stays, base_metadata-Tidy,
          save_metadata-Tidy,
        )
        depth 40

gets-Leads : {S A : Type 0} (f : S → A) → Leads (λ a s (t : History). a ≡ f s) (gets f)
unfolding gets
gets-Leads f = record { at = λ s t a e. cc }

-- What a run returns is its result.
pub execute_run-Leads :
    ⦃host : Env⦄ (temp : FilePath)
    → Leads (λ code (r : Run) (t : History). code ≡ r.result) (execute_run temp)
unfolding execute_run
execute_run-Leads temp = Leads-bind _ _ _ λ _. Leads-bind _ _ _ λ _. Leads-bind _ _ _ λ _.
    Leads-bind _ _ _ λ _. Leads-bind _ _ _ λ _.
      Leads-bind _ _ _ λ _. Leads-bind _ _ _ λ _. Leads-bind _ _ _ λ _. gets-Leads (λ r. r.result)

-- A run that returns its exit code has noted a failure exactly when the code is not zero, whatever the
-- host answers and whichever phase or clean-up step failed; and the code is the result that it noted.
pub execute-exit_code :
    ⦃host : Env⦄ (temp : FilePath) (h : Harness) (t : History) (code : ℤ)
    → (execute_run temp (started temp h) t).0 ≡ ok code
    → let r' = (execute_run temp (started temp h) t).1 in
      (code ≡ r'.result) × (is_some r'.failure ≡ not (is_zero code))
execute-exit_code temp h t code runs =
    let same = (execute_run-Leads temp).at (started temp h) t code runs in
    let settled =
      Ends-ok IsConsistent (execute_run temp (started temp h) t) code runs
        ((execute_run-settles temp).at (started temp h) t (refl, refl)) in
    (same, rw same settled)
