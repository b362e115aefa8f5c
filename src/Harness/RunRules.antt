-- ===== src/Harness/RunRules.antt =====
-- The rules of a whole run, for every invariant of the harness that its steps keep.
use canokey_usbip.Prelude.{
  ◌≡◌, inr, inl, refl, String, [], ◌∷◌, ℤ, is_empty, is_zero, Bool-cases, false, insert, update,
}
use canokey_usbip.Host.{Event, FilePath, Env, Exec, Exc, Json, JsonDict, ◌>>=◌}
use canokey_usbip.Host.Calls
use canokey_usbip.Host.Calls.{rmtree}
use canokey_usbip.Host.Leads.{Leads-bind}
use canokey_usbip.Host.Known.{Returns, Returns-pure, Returns-zoom, Within-bind_known}
use canokey_usbip.Host.Within.{Within, Within-zoom, Within-bind}
use canokey_usbip.Host.Plain.{IsPlain, Bounded, plain_rules}
use canokey_usbip.Platform.Reading.{
  prepare_host-Gentle, matching_usb_devices-Gentle, wait_ready-Gentle,
}
use canokey_usbip.Platform.Harmless.{attach-Gentle, set_usb_identity-Gentle}
use canokey_usbip.Harness.State.{Harness}
use canokey_usbip.Harness.Core.{acquire_lock}
use canokey_usbip.Harness.Metadata.{base_metadata, initial_metadata}
use canokey_usbip.Harness.Tidy.{
  Tidy, IsCalm, on_platform-Tidy, acquire_lock-Tidy, resolve_core-Tidy, build-Tidy,
}
use canokey_usbip.Harness.TidyRun.{
  write_state-Tidy, start_server-Tidy, run_test-Tidy, base_metadata-Tidy, initial_metadata-Tidy,
  save_metadata-Tidy,
}
use canokey_usbip.Harness.Lasting.{Lasting, Permits, is_empty-insert, is_empty-update_some}
use canokey_usbip.Harness.Cleanup.{cleanup-Keeping}
use canokey_usbip.Harness.Execute.{
  fail_cleanup, Run, self, enter, report_test, drive_device, report_build, lifecycle, handle,
  cleanup, execute_run,
}

abbrev pub IsNoted : JsonDict → Type 0
IsNoted d = is_empty d ≡ false

-- The metadata that a run takes over is not empty.
module _ ⦃host : Env⦄ where
  pub base_metadata-IsNoted : Returns IsNoted base_metadata
  unfolding base_metadata
  base_metadata-IsNoted = Leads-bind _ _ _ λ _. Leads-bind _ _ _ λ _. Leads-bind _ _ _ λ _.
      Leads-bind _ _ _ λ _.
        Leads-bind _ _ _
          λ _. Leads-bind _ _ _ λ _. Leads-bind _ _ _ λ _. Returns-pure IsNoted _ refl

  initial_metadata-IsNoted : Returns IsNoted initial_metadata
  unfolding initial_metadata
  initial_metadata-IsNoted =
      Leads-bind _ _ _ λ _.
        Leads-bind _ _ _ λ _. Leads-bind _ _ _ λ d. Returns-pure IsNoted _ (simp is_empty-insert)

  pub self-IsNoted : (m : Exec Harness JsonDict) → Returns IsNoted m → Returns IsNoted (self m)
  unfolding self
  self-IsNoted m w = Returns-zoom _ _ m w

abbrev pub TidyRun :
    {A : Type 0} (D : Type 0) (J : Harness → Type 0) (P : Event → Type 0) → Exec Run A → Type 0
TidyRun D J P = Within D (λ r. J r.harness) P IsPlain

module _ (D : Type 0) (J : Harness → Type 0) {P : Event → Type 0} where
  pub self-TidyRun : {A : Type 0} (m : Exec Harness A) → Tidy D J P m → TidyRun D J P (self m)
  unfolding self
  self-TidyRun m w = Within-zoom _ _ m w (λ s h. h) (λ q s h j. j) (λ e p. p)

  pub enter-TidyRun : (phase : String) → TidyRun D J P (enter phase)
  unfolding enter
  enter-TidyRun phase = search plain_rules

module _ ⦃host : Env⦄ (D : Type 0) (J : Harness → Type 0) {P : Event → Type 0}
    (calm : (e : Event) → IsCalm e → P e) (temp : FilePath) where
  pub handle-TidyRun : (e : Exc) → IsPlain e → TidyRun D J P (handle temp e)
  unfolding handle Calls.print_error
  handle-TidyRun (Exc.phase_error phase why code) p = search (plain_rules, calm) depth 10
  handle-TidyRun (Exc.harness_error why) p = search (plain_rules, calm) depth 10
  handle-TidyRun (Exc.pcsc_query_error why) p = search (plain_rules, calm) depth 10
  handle-TidyRun (Exc.os_error k why) p = search (plain_rules, calm) depth 10
  handle-TidyRun (Exc.timeout_expired why) p = search (plain_rules, calm) depth 10
  handle-TidyRun e p = search (plain_rules, p)

module _ (D : Type 0) {J : Harness → Type 0} {P : Event → Type 0} (lasting : Lasting J)
    (permits : Permits P) where
  noted_entry :
      (k : String) (v : Json) (h : Harness)
      → J h
      → J (record h { metadata = insert k v h.metadata })
  noted_entry k v h j = lasting.noted h _ (is_empty-insert k v h.metadata) j

  module _ ⦃host : Env⦄ (c : Bounded D host) (temp : FilePath) where
    report_test-TidyRun : (code : ℤ) → TidyRun D J P (report_test temp code)
    unfolding report_test
    report_test-TidyRun code = search plain_rules

    drive_device-TidyRun : TidyRun D J P (drive_device temp)
    unfolding drive_device
    drive_device-TidyRun =
        search
          (
            plain_rules,
            permits.calm,
            permits.starts,
            permits.ends,
            lasting.moved,
            lasting.served,
            noted_entry,
            self-TidyRun D J,
            enter-TidyRun D J,
            on_platform-Tidy,
            prepare_host-Gentle,
            matching_usb_devices-Gentle,
            attach-Gentle,
            wait_ready-Gentle,
            write_state-Tidy,
            start_server-Tidy,
            run_test-Tidy,
          )
          depth 60

    report_build-TidyRun : (binary : FilePath) → TidyRun D J P (report_build temp binary)
    unfolding report_build Calls.print
    report_build-TidyRun binary = search (plain_rules, permits.calm) depth 10

    -- What follows the new metadata.
    noting :
        {A : Type 0} (f : JsonDict → Exec Run A)
        → ((d : JsonDict) → is_empty d ≡ false → TidyRun D J P (f d))
        → TidyRun D J P (self initial_metadata >>= f)
    noting f k =
        Within-bind_known _ f (self-IsNoted initial_metadata initial_metadata-IsNoted)
          (self-TidyRun D J initial_metadata (initial_metadata-Tidy c permits.calm)) k

    -- A run is the lock, and then what stays within these bounds.
    pub lifecycle-from_lock :
        (Q : Exec Run (Unit {0}) → Type 0)
        → ((f : Unit {0} → Exec Run (Unit {0}))
            → ((u : Unit {0}) → TidyRun D J P (f u))
            → Q (self (acquire_lock temp) >>= f))
        → Q (lifecycle temp)
    unfolding lifecycle
    lifecycle-from_lock Q k = k _ λ u.
        search
          (
            noting,
            plain_rules,
            permits.calm,
            lasting.moved,
            lasting.resolved,
            lasting.built,
            lasting.noted,
            noted_entry,
            self-TidyRun D J,
            enter-TidyRun D J,
            on_platform-Tidy,
            set_usb_identity-Gentle,
            drive_device-TidyRun,
            report_build-TidyRun,
            resolve_core-Tidy,
            build-Tidy,
            save_metadata-Tidy,
          )
          depth 60

    pub lifecycle-TidyRun : TidyRun D J P (lifecycle temp)
    lifecycle-TidyRun = lifecycle-from_lock (TidyRun D J P) λ f w.
        Within-bind _ f (self-TidyRun D J (acquire_lock temp) (acquire_lock-Tidy permits.calm temp))
          w

    module _ (removes : (h : Harness) → J h → P (Event.rmtree h.workspace)) where
      failed : (why : String) (r : Run) → J r.harness → J (fail_cleanup why r).harness
      unfolding fail_cleanup
      failed why r h = elim (Bool-cases (is_zero r.result)) [ inl e ↦ rw e h | inr e ↦ rw e h ]

      kept :
          (d : JsonDict) (r : Run)
          → J r.harness
          → J (record r.harness { metadata = update r.harness.metadata d })
      kept [] r h = h
      kept ((k, v) ∷ d) r h =
          lasting.noted r.harness _ (is_empty-update_some r.harness.metadata k v d) h

      cleanup-TidyRun : TidyRun D J P (cleanup temp)
      cleanup-TidyRun =
          cleanup-Keeping c temp permits.calm permits.ends
            (record { inside = λ r h. h; outside = λ h r i j. j; failed = failed; recorded = kept })
            lasting.moved (λ r h. removes r.harness h)

      beginning :
          {A : Type 0} (f : JsonDict → Exec Run A)
          → ((d : JsonDict) → is_empty d ≡ false → TidyRun D J P (f d))
          → TidyRun D J P (self base_metadata >>= f)
      beginning f k =
          Within-bind_known _ f (self-IsNoted base_metadata base_metadata-IsNoted)
            (self-TidyRun D J base_metadata (base_metadata-Tidy c permits.calm)) k

      pub execute_run-TidyRun : TidyRun D J P (execute_run temp)
      unfolding execute_run Calls.mkdir
      execute_run-TidyRun =
          search
            (
              beginning,
              plain_rules,
              permits.calm,
              lasting.noted,
              self-TidyRun D J,
              save_metadata-Tidy,
              lifecycle-TidyRun,
              handle-TidyRun D J permits.calm,
              cleanup-TidyRun,
            )
            depth 40
