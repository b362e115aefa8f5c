-- ===== src/Harness/Execute.antt =====
-- `execute`: one run. Its local variables are the fields of `Run` beside the harness; its `finally`
-- block is `cleanup`, in the order of the source.
use canokey_usbip.Prelude.{
  ℕ, String, ◌<>◌, Bool, true, false, not, ◌&&◌, ◌||◌, Option, none, some, List, [], ◌∷◌, ℤ, pos,
  is_zero, is_empty, insert, update, show_int, if◌then◌else◌,
}
use canokey_usbip.Host.{
  FilePath, join, Json, JsonDict, text, Env, Exc, phase_error, harness_error, pcsc_query_error,
  os_error, timeout_expired, message, Exec, pure, raise, gets, modify, catch, finally, zoom, ◌>>=◌,
  ◌>>◌,
}
use canokey_usbip.Host.Calls.{
  mkdir, exists, read_text, write_text, append_text, rmtree, utc_now, print, print_error,
}
use canokey_usbip.Platform.{
  Status, set_usb_identity, prepare_host, matching_usb_devices, attach, detach, wait_ready,
  collect_debug,
}
use canokey_usbip.Harness.State.{Harness, on_platform}
use canokey_usbip.Harness.Core.{acquire_lock, resolve_core}
use canokey_usbip.Harness.Build.{build}
use canokey_usbip.Harness.Server.{start_server, write_state, stop_server}
use canokey_usbip.Harness.Trial.{run_test}
use canokey_usbip.Harness.Metadata.{base_metadata, initial_metadata, save_metadata}

pub record Run : Type 0 where
  pub harness : Harness
  pub result : ℤ
  pub phase : String
  pub failure : Option String

-- A call of a method of `self`.
unfoldable pub self : {A : Type 0} → Exec Harness A → Exec Run A
self = zoom (λ r. r.harness) (λ h r. record r { harness = h })

unfoldable pub enter : String → Exec Run (Unit {0})
enter phase = modify (λ r. record r { phase = phase })

-- phase = …; result = …; failure = …
abbrev pub fail : String → ℤ → String → Run → Run
fail phase code why r = record r { phase = phase; result = code; failure = some why }

-- `if result == 0:` in the cleanup: its errors never replace a failure.
unfoldable pub fail_cleanup : String → Run → Run
fail_cleanup why r = if is_zero r.result then fail "cleanup" (pos 1) why r else r

-- The dict of the status, as the metadata keeps it.
unfoldable pub status_table : Status → Json
status_table s =
    Json.table
      (("usb", s.usb)
        ∷ ("ccid_interface", s.ccid_interface)
        ∷ ("hid_interface", s.hid_interface)
        ∷ ("webusb_interface", s.webusb_interface)
        ∷ ("hidraw", s.hidraw)
        ∷ ("pcsc_checked", s.pcsc_checked)
        ∷ ("pcsc", s.pcsc)
        ∷ [])
      (("pcsc_readers", s.pcsc_readers) ∷ ("pcsc_all_readers", s.pcsc_all_readers) ∷ [])

abbrev set_metadata : String → Json → Harness → Harness
set_metadata k v h = record h { metadata = insert k v h.metadata }

unfoldable pub preserves_workspace : Run → Bool
preserves_workspace r =
    (r.harness.options.build_only && is_zero r.result)
    || (not (is_zero r.result) && r.harness.options.keep_on_failure)

-- What the metadata say of it, by the same condition once more.
unfoldable pub workspace_preserved : Run → Bool
workspace_preserved r =
    (r.harness.options.build_only && is_zero r.result)
    || (not (is_zero r.result) && r.harness.options.keep_on_failure)

module _ ⦃host : Env⦄ (temp : FilePath) where
  unfoldable pub report_test : ℤ → Exec Run (Unit {0})
  report_test code = modify λ r. record r {
    result = code;
    failure =
        if is_zero code then r.failure else some ("test command exited with " <> show_int code);
  }

  unfoldable pub server_pid : Option ℕ → ℕ
  server_pid none = 0
  server_pid (some pid) = pid

  -- From the host's preparation to the end of the test command.
  unfoldable pub drive_device : Exec Run (Unit {0})
  unfolding report_test server_pid status_table
  drive_device = do
    enter "host"
    self (on_platform prepare_host)
    before ← self (on_platform matching_usb_devices)
    enter "start"
    self start_server
    enter "attach"
    self (on_platform (attach before))
    pid ← gets (λ r. server_pid r.harness.server)
    port ← gets (λ r. r.harness.platform.usb_port)
    self (write_state pid port)
    enter "readiness"
    ready ← self (on_platform wait_ready)
    self (modify (set_metadata "readiness" (status_table ready)))
    enter "test"
    code ← self (run_test ready)
    report_test code

  unfoldable pub report_build : FilePath → Exec Run (Unit {0})
  report_build binary = do modify (λ r. record r { result = pos 0 }); print binary

  -- The body of the `try` block.
  unfoldable pub lifecycle : Exec Run (Unit {0})
  lifecycle = do
    self (acquire_lock temp)
    enter "resolve-core"
    core ← self resolve_core
    self (modify (λ h. record h { core = some core }))
    self (on_platform (set_usb_identity core.usb_vid core.usb_pid))
    metadata ← self initial_metadata
    self (modify (λ h. record h { metadata = metadata }))
    self save_metadata
    enter "build"
    binary ← self build
    self (modify (λ h. record h { binary = some binary }))
    self (modify (set_metadata "binary" (Json.str binary)))
    build_only ← gets (λ r. r.harness.options.build_only)
    if build_only then report_build binary else drive_device

  unfoldable pub report_failure : String → Exec Run (Unit {0})
  report_failure why = print_error ("canokey-usbip: " <> why)

  -- The `except` clauses. What they do not name goes on.
  unfoldable pub handle : Exc → Exec Run (Unit {0})
  unfolding report_failure
  handle (phase_error phase why code) = do modify (fail phase code why); report_failure why
  handle (harness_error why) = do
    modify (λ r. record r { failure = some why })
    report_failure why
    modify (λ r. record r { result = pos 1 })
  handle (pcsc_query_error why) = do
    modify (λ r. record r { failure = some why })
    report_failure why
    modify (λ r. record r { result = pos 1 })
  handle (os_error k why) = do
    modify (λ r. record r { failure = some why })
    report_failure why
    modify (λ r. record r { result = pos 1 })
  handle (timeout_expired why) = do
    modify (λ r. record r { failure = some why })
    report_failure why
    modify (λ r. record r { result = pos 1 })
  handle e = raise e

  unfoldable pub collect : Exec Run (Unit {0})
  collect = catch (self (on_platform collect_debug)) λ e. do
    output_dir ← gets (λ r. r.harness.output_dir)
    write_text (join output_dir "collect-debug-error.txt") (text (message e <> "\n"))

  unfoldable pub show_files : FilePath → List String → Exec Run (Unit {0})
  show_files output_dir [] = pure tt
  show_files output_dir (name ∷ names) = do
    present ← exists (join output_dir name)
    if present
        then (do
          print_error ("--- " <> (name <> " ---"))
          content ← read_text (join output_dir name)
          print_error content)
        else pure tt
    show_files output_dir names

  unfoldable pub show_debug : Bool → Exec Run (Unit {0})
  unfolding show_files
  show_debug false = pure tt
  show_debug true = do
    output_dir ← gets (λ r. r.harness.output_dir)
    show_files output_dir ("usbip-port.txt" ∷ "lsusb.txt" ∷ "pcscd.log" ∷ [])

  unfoldable pub detach_owned_port : Bool → Exec Run (Unit {0})
  unfolding fail_cleanup
  detach_owned_port false = pure tt
  detach_owned_port true = catch (self (on_platform detach)) λ e. do
    output_dir ← gets (λ r. r.harness.output_dir)
    write_text (join output_dir "cleanup-error.txt") (text ("detach: " <> (message e <> "\n")))
    modify (fail_cleanup ("detach failed: " <> message e))

  unfoldable pub stop : Exec Run (Unit {0})
  unfolding fail_cleanup
  stop = catch (self stop_server) λ e. do
    output_dir ← gets (λ r. r.harness.output_dir)
    append_text (join output_dir "cleanup-error.txt") ("stop: " <> (message e <> "\n"))
    modify (fail_cleanup ("stop failed: " <> message e))

  -- The last entries of the metadata.
  unfoldable pub final_entries : String → Run → JsonDict
  unfolding workspace_preserved
  final_entries now r =
      ("finished_at", Json.str now)
      ∷ ("phase", Json.str r.phase)
      ∷ ("exit_code", Json.num r.result)
      ∷ ("failure", elim r.failure [ none ↦ Json.null | some why ↦ Json.str why ])
      ∷ ("workspace_preserved", Json.bool (workspace_preserved r))
      ∷ []

  unfoldable pub record_end : Bool → Exec Run (Unit {0})
  unfolding final_entries
  record_end true = pure tt
  record_end false = do
    now ← utc_now
    modify λ r. record r {
      harness = record r.harness { metadata = update r.harness.metadata (final_entries now r) };
    }
    self save_metadata

  unfoldable pub drop_workspace : Exec Run (Unit {0})
  drop_workspace = do
    preserve ← gets preserves_workspace
    workspace ← gets (λ r. r.harness.workspace)
    if preserve then pure tt else rmtree workspace

  -- The `finally` block.
  unfoldable pub cleanup : Exec Run (Unit {0})
  cleanup = do
    collect
    debug ← gets (λ r. r.harness.debug)
    show_debug debug
    owns ← gets (λ r. r.harness.platform.owns_attachment)
    detach_owned_port owns
    stop
    no_metadata ← gets (λ r. is_empty r.harness.metadata)
    record_end no_metadata
    drop_workspace

  unfoldable pub guarded : Exec Run (Unit {0})
  guarded = finally (catch lifecycle handle) cleanup

  unfoldable pub execute_run : Exec Run ℤ
  unfolding guarded
  execute_run = do
    workspace ← gets (λ r. r.harness.workspace)
    output_dir ← gets (λ r. r.harness.output_dir)
    mkdir workspace
    mkdir output_dir
    metadata ← self base_metadata
    self (modify (λ h. record h { metadata = metadata }))
    self save_metadata
    guarded
    gets (λ r. r.result)

  abbrev pub started : Harness → Run
  started h = record { harness = h; result = pos 1; phase = "setup"; failure = none }
