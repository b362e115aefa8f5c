-- ===== src/Harness/Record.antt =====
-- The record of a run that metadata.json keeps: how it ends agrees with the exit code.
use canokey_usbip.Prelude.{
  sym, inl, inr, [], ◌∷◌, ◌≡◌, refl, String, Bool, true, false, Option, none, some, ℤ, is_empty,
  lookup, lookup-insert, insert, update, ap, arith,
}
use canokey_usbip.Host.{
  FilePath, Event, join, json, catch, zoom, Env, Exec, History, Json, JsonDict, ok, gets, modify,
  continue, ◌>>=◌,
}
use canokey_usbip.Host.Calls
use canokey_usbip.Host.Within.{Within, Within-zoom, Within-catch}
use canokey_usbip.Host.Plain.{free, plain_rules, IsPlain}
use canokey_usbip.Host.Reaches.{Ends, Ends-ok, Ends-Within, Reaches, Reaches-then, Reaches-bind}
use canokey_usbip.Host.Finals.{Reaches-finally_block, Reaches-gets}
use canokey_usbip.Host.Known.{Reaches-then_known}
use mathlib.Core.Logic.{◌⊎◌}
use canokey_usbip.Harness.Saved.{IsLast, execute_run-Finished}
use canokey_usbip.Harness.State.{Harness}
use canokey_usbip.Harness.Metadata.{save_metadata}
use canokey_usbip.Harness.ExitCode.{execute_run-Leads}
use canokey_usbip.Harness.Metadata.{base_metadata}
use canokey_usbip.Harness.TidyRun.{save_metadata-Tidy}
use canokey_usbip.Harness.Lasting.{
  AnyEvent, any_event, HasMetadata, metadata_lasts, is_empty-update,
}
use canokey_usbip.Harness.Cleanup.{
  Outlasts, collect-Keeping, show_debug-Keeping, detach_owned_port-Keeping, stop-Keeping,
}
use canokey_usbip.Harness.RunRules.{
  lifecycle-TidyRun, handle-TidyRun, self-TidyRun, self-IsNoted, base_metadata-IsNoted,
}
use canokey_usbip.Harness.Execute.{
  fail_cleanup, lifecycle, handle, Run, self, preserves_workspace, workspace_preserved,
  final_entries, record_end, drop_workspace, cleanup, guarded, execute_run,
}

abbrev failure_json : Option String → Json
failure_json none = Json.null
failure_json (some why) = Json.str why

-- The metadata has the entries of the run.
abbrev pub IsRecorded : Run → Type 0
IsRecorded r =
    (lookup "phase" r.harness.metadata ≡ some (Json.str r.phase))
    × (lookup "exit_code" r.harness.metadata ≡ some (Json.num r.result))
    × (lookup "failure" r.harness.metadata ≡ some (failure_json r.failure))
    × (lookup "workspace_preserved" r.harness.metadata ≡ some (Json.bool (preserves_workspace r)))

-- metadata.json is written with this metadata, and then nothing is called but the removal of the
-- workspace, if the metadata does not say that it is preserved.
abbrev pub IsWritten : Run → History → Type 0
IsWritten r t =
    let saved =
      Event.write_text (join r.harness.output_dir "metadata.json") (json r.harness.metadata) in
    let preserved = lookup "workspace_preserved" r.harness.metadata in
    (u : History) × (((preserved ≡ some (Json.bool true)) × (t ≡ saved ∷ u))
      ⊎ ((preserved ≡ some (Json.bool false)) × (t ≡ Event.rmtree r.harness.workspace ∷ saved ∷ u)))

-- There is metadata to record the end in.
abbrev HasRecord : Run → Type 0
HasRecord r = HasMetadata r.harness

abbrev Any : Run → Type 0
Any r = Unit {0}

put_same : (r s : Run) (q : Harness) → s ≡ r → q ≡ r.harness → record s { harness = q } ≡ r
put_same r s q h j i = record (h i) { harness = j i }

recorded_failure :
    (o : Option String) (d : JsonDict) (kept : Bool)
    → lookup "failure" (
        insert "workspace_preserved"
          (Json.bool kept)
          (insert "failure" (elim o [ none ↦ Json.null | some why ↦ Json.str why ]) d))
      ≡ some (failure_json o)
recorded_failure none d kept = simp lookup-insert
recorded_failure (some why) d kept = simp lookup-insert

module _ ⦃host : Env⦄ (temp : FilePath) where
  save_metadata-Within : (I : Harness → Type 0) → Within (Unit {0}) I AnyEvent IsPlain save_metadata
  unfolding save_metadata Calls.mkdir Calls.write_text
  save_metadata-Within I = search plain_rules depth 10

  drop_workspace-Within :
      (I : Run → Type 0) → Within (Unit {0}) I AnyEvent IsPlain (drop_workspace temp)
  unfolding drop_workspace Calls.rmtree
  drop_workspace-Within I = search plain_rules depth 10

  saved-Within : (r : Run) → Within (Unit {0}) (λ s. s ≡ r) AnyEvent IsPlain (self save_metadata)
  unfolding self
  saved-Within r =
      Within-zoom _ _ save_metadata (save_metadata-Within (λ h. h ≡ r.harness))
        (λ s h. ap (λ (q : Run). q.harness) h) (λ q s h j. put_same r s q h j) (λ e p. tt)

  -- The run with its last entries.
  abbrev finished : String → Run → Run
  finished now r = record r {
    harness = record r.harness { metadata = update r.harness.metadata (final_entries temp now r) };
  }

  finished-IsRecorded : (now : String) (r : Run) → IsRecorded (finished now r)
  unfolding final_entries preserves_workspace workspace_preserved
  finished-IsRecorded now r = (
    simp lookup-insert,
    simp lookup-insert,
    recorded_failure r.failure
        (insert "exit_code" (Json.num r.result) (
          insert "phase" (Json.str r.phase)
            (insert "finished_at" (Json.str now) r.harness.metadata)))
        (preserves_workspace r),
    simp lookup-insert,
  )

  same-Within :
      (r : Run)
      → Within
          (Unit {0})
          (λ s. s ≡ r)
          AnyEvent
          IsPlain
          (self save_metadata >>= λ _. drop_workspace temp)
  same-Within r = search (plain_rules, saved-Within, drop_workspace-Within)

  record_end-IsRecorded :
      (none_yet : Bool) (r : Run) (t : History)
      → is_empty r.harness.metadata ≡ none_yet
      → is_empty r.harness.metadata ≡ false
      → Ends IsRecorded Any ((record_end temp none_yet >>= λ _. drop_workspace temp) r t)
  unfolding record_end ◌>>=◌ modify continue Calls.utc_now
  record_end-IsRecorded true r t e h = absurd (cc)
  record_end-IsRecorded false r t e h =
      let end = finished (host.utc_now t) r in
      Ends-Within (self save_metadata >>= λ _. drop_workspace temp) (same-Within end)
        (λ s i. rw i (finished-IsRecorded (host.utc_now t) r)) (λ s i. tt) end _ refl

  last_steps : Reaches {A = Unit {0}} HasRecord IsRecorded Any (
      gets (λ (r : Run). is_empty r.harness.metadata) >>= λ b.
      record_end temp b >>= λ _. drop_workspace temp)
  unfolding ◌>>=◌ gets continue
  last_steps = record { at = λ r t h. record_end-IsRecorded _ r t refl h }

  failed : (why : String) (r : Run) → HasRecord r → HasRecord (fail_cleanup why r)
  unfolding fail_cleanup
  failed why r h = ground arith

  outlasts : Outlasts AnyEvent HasRecord HasMetadata
  outlasts = record {
    inside = λ r h. h;
    outside = λ h r i j. j;
    failed = failed;
    recorded = λ d r h. is_empty-update r.harness.metadata d h;
  }

  HasRecord-bind :
      {A B : Type 0} (m : Exec Run A) (f : A → Exec Run B)
      → Within (Unit {0}) HasRecord AnyEvent IsPlain m
      → ((a : A) → Reaches HasRecord IsRecorded Any (f a))
      → Reaches HasRecord IsRecorded Any (m >>= f)
  HasRecord-bind m f w k = Reaches-bind m f w (λ s h. tt) k

  cleanup-IsRecorded : Reaches HasRecord IsRecorded Any (cleanup temp)
  unfolding cleanup
  cleanup-IsRecorded =
      let moved = metadata_lasts.moved in
      HasRecord-bind _ _ (collect-Keeping free temp any_event.calm any_event.ends outlasts moved)
        λ _. HasRecord-bind _ _ (search plain_rules) λ debug.
          HasRecord-bind _ _
            (show_debug-Keeping free temp any_event.calm any_event.ends outlasts debug)
            λ _. HasRecord-bind _ _ (search plain_rules) λ owns.
              HasRecord-bind _ _
                (detach_owned_port-Keeping free temp any_event.calm any_event.ends outlasts moved
                  owns)
                λ _.
                  HasRecord-bind _ _ (stop-Keeping free temp any_event.calm any_event.ends outlasts)
                    λ _. last_steps

  lifecycle-HasRecord :
      Within (Unit {0}) HasRecord AnyEvent IsPlain (catch (lifecycle temp) (handle temp))
  lifecycle-HasRecord =
      Within-catch _ _ (lifecycle-TidyRun (Unit {0}) metadata_lasts any_event free temp)
        (handle-TidyRun (Unit {0}) HasMetadata any_event.calm temp)

  guarded-IsRecorded : Reaches HasRecord IsRecorded Any (guarded temp)
  unfolding guarded
  guarded-IsRecorded = Reaches-finally_block IsRecorded _ _ lifecycle-HasRecord cleanup-IsRecorded

  saved :
      {A : Type 0} (f : Unit {0} → Exec Run A)
      → Reaches HasRecord IsRecorded Any (f tt)
      → Reaches HasRecord IsRecorded Any (self save_metadata >>= f)
  saved f w =
      HasRecord-bind _ f
        (search (
          plain_rules,
          self-TidyRun (Unit {0}) HasMetadata,
          save_metadata-Tidy,
          free,
          any_event.calm,
        ))
        (λ u. w)

  -- With the first metadata, which are not empty.
  from_metadata :
      (d : JsonDict)
      → is_empty d ≡ false
      → Reaches {A = ℤ} Any IsRecorded Any (
          self (modify (λ h. record h { metadata = d })) >>= λ _.
          self save_metadata >>= λ _. guarded temp >>= λ _. gets (λ r. r.result))
  unfolding self zoom modify ◌>>=◌ continue
  from_metadata d h = record {
    at = λ r t i.
        (saved (λ _. guarded temp >>= λ _. gets (λ r. r.result))
            (Reaches-gets _ _ guarded-IsRecorded)).at
          (record r { harness = record r.harness { metadata = d } }) t h;
  }

  execute_run-IsRecorded : Reaches Any IsRecorded Any (execute_run temp)
  unfolding execute_run
  execute_run-IsRecorded =
      Reaches-then _ _ (λ s. tt)
        λ _.
          Reaches-then _ _ (λ s. tt)
            λ _.
              Reaches-then _ _ (λ s. tt)
                λ _.
                  Reaches-then _ _ (λ s. tt)
                    λ _.
                      Reaches-then_known _ _ (self-IsNoted base_metadata base_metadata-IsNoted)
                        (λ s. tt) from_metadata

some_entry : (d : JsonDict) (k : String) (v : Json) → lookup k d ≡ some v → is_empty d ≡ false
some_entry [] k v h = absurd (cc)
some_entry ((j, w) ∷ d) k v h = refl

recorded-IsWritten : (r : Run) (t : History) → IsRecorded r → IsLast r t → IsWritten r t
recorded-IsWritten r t (_, _, _, kept) (inl (e, (u, write))) = (u, inl (rw (sym e) kept, write))
recorded-IsWritten r t (_, _, _, kept) (inr (e, v, removed, (u, write))) =
    (u, inr (rw (sym e) kept, rw (sym write) removed))

-- A run that returns its exit code leaves metadata with its phase, that exit code and its failure, and
-- with whether the workspace is preserved. These metadata are what the run has written to metadata.json,
-- with its last call where the metadata say that the workspace is preserved; else with the call before
-- the last, which removes the workspace.
pub execute-IsRecorded :
    ⦃host : Env⦄ (temp : FilePath) (r : Run) (t : History) (code : ℤ)
    → (execute_run temp r t).0 ≡ ok code
    → let (_, r', t') = execute_run temp r t in (code ≡ r'.result) × IsRecorded r' × IsWritten r' t'
execute-IsRecorded temp r t code runs =
    let (result, r', t') = execute_run temp r t in
    let recorded : IsRecorded r' =
      Ends-ok IsRecorded (execute_run temp r t) code runs
        ((execute_run-IsRecorded temp).at r t tt) in
    (
      (execute_run-Leads temp).at r t code runs,
      recorded,
      recorded-IsWritten r' t' recorded (
          (execute_run-Finished temp).at r t code runs
            (some_entry r'.harness.metadata "phase" _ recorded.0)),
    )
