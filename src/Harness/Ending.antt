-- ===== src/Harness/Ending.antt =====
-- What a run does with its workspace: `preserve_workspace`, and the removal that ends the run.
use canokey_usbip.Prelude.{
  String, ◌≡◌, ◌≢◌, refl, Bool, true, false, not, ◌&&◌, ◌||◌, if◌then◌else◌, zero, suc, ℤ, pos,
  negsuc, is_zero, arith, inl, inr, ◌∷◌,
}
use mathlib.Core.Logic.{◌⊎◌}
use mathlib.Core.Path.{sym}
use canokey_usbip.Host.{Event, FilePath, History, Env, Exec, ok, gets, pure, continue, ◌>>=◌}
use canokey_usbip.Host.Calls
use canokey_usbip.Host.Emits.{Extends, same}
use canokey_usbip.Host.Within.{Within, Within-catch}
use canokey_usbip.Host.Plain.{free, plain_rules, IsPlain}
use canokey_usbip.Host.Throughout.{Throughout, Throughout-bind, Throughout-finally, Throughout-gets}
use canokey_usbip.Options.{Options}
use canokey_usbip.Harness.State.{Harness}
use canokey_usbip.Harness.Metadata.{base_metadata, save_metadata}
use canokey_usbip.Harness.Tidy.{IsCalm}
use canokey_usbip.Harness.TidyRun.{IsEnding, base_metadata-Tidy, save_metadata-Tidy}
use canokey_usbip.Harness.Lasting.{Lasting, Permits}
use canokey_usbip.Harness.Cleanup.{
  Outlasts, collect-Keeping, show_debug-Keeping, detach_owned_port-Keeping, stop-Keeping,
  record_end-Keeping,
}
use canokey_usbip.Harness.RunRules.{self-TidyRun, lifecycle-TidyRun, handle-TidyRun}
use canokey_usbip.Harness.ExitCode.{execute_run-Leads}
use canokey_usbip.Harness.Execute.{
  Run, fail_cleanup, preserves_workspace, drop_workspace, cleanup, guarded, execute_run,
}

-- The workspace is kept after a build only that has worked, and after a failure if that is asked for.
abbrev pub IsKept : Options → ℤ → Type 0
IsKept o code =
    ((o.build_only ≡ true) × (code ≡ pos 0)) ⊎ ((o.keep_on_failure ≡ true) × (code ≢ pos 0))

-- Anything but a removal.
abbrev pub NoRemoval : Event → Type 0
NoRemoval (Event.rmtree p) = ⊥
NoRemoval _ = Unit

-- `t` is `u` with further calls: no removal where the workspace is kept, and else one, which is the last
-- call and removes the workspace.
pub data Disposes (o : Options) (workspace : FilePath) (code : ℤ) (u t : History) : Type 0 where
  kept : IsKept o code → Extends NoRemoval u t → Disposes o workspace code u t
  dropped :
      (v : History)
      → (IsKept o code → ⊥)
      → Extends NoRemoval u v
      → t ≡ Event.rmtree workspace ∷ v
      → Disposes o workspace code u t

NoRemoval-of_calm : (e : Event) → IsCalm e → NoRemoval e
NoRemoval-of_calm (Event.rmtree p) h = absurd h
NoRemoval-of_calm _ h = tt

NoRemoval-of_ending : (e : Event) → IsEnding e → NoRemoval e
NoRemoval-of_ending (Event.rmtree p) h = absurd h
NoRemoval-of_ending _ h = tt

permits : Permits NoRemoval
permits = record {
  calm = NoRemoval-of_calm;
  starts = λ argv cwd added. tt;
  ends = NoRemoval-of_ending;
}

is_kept :
    (o : Options) (code : ℤ)
    → ((o.build_only && is_zero code) || (not (is_zero code) && o.keep_on_failure)) ≡ true
    → IsKept o code
is_kept o (pos zero) h = inl (ground arith, refl)
is_kept o (pos (suc n)) h = inr (ground arith, λ e. absurd (cc))
is_kept o (negsuc n) h = inr (ground arith, λ e. absurd (cc))

is_not_kept :
    (o : Options) (code : ℤ)
    → ((o.build_only && is_zero code) || (not (is_zero code) && o.keep_on_failure)) ≡ false
    → IsKept o code
    → ⊥
is_not_kept o (pos zero) h (inl (b, z)) = ground arith
is_not_kept o (pos zero) h (inr (k, n)) = absurd (n refl)
is_not_kept o (pos (suc n)) h (inl (b, z)) = absurd (cc)
is_not_kept o (pos (suc n)) h (inr (k, m)) = ground arith
is_not_kept o (negsuc n) h (inl (b, z)) = absurd (cc)
is_not_kept o (negsuc n) h (inr (k, m)) = ground arith

-- Nothing changes the options and the path of the workspace.
module _ (o : Options) (workspace : FilePath) where
  abbrev IsOf : Harness → Type 0
  IsOf h = (h.options ≡ o) × (h.workspace ≡ workspace)

  lasting : Lasting IsOf
  lasting = record {
    moved = λ h p j. j;
    served = λ h pid j. j;
    resolved = λ h core j. j;
    built = λ h b j. j;
    noted = λ h d e j. j;
  }

  abbrev IsRunOf : Run → Type 0
  IsRunOf r = IsOf r.harness

  failed : (why : String) (r : Run) → IsRunOf r → IsRunOf (fail_cleanup why r)
  unfolding fail_cleanup
  failed why r h = ground arith

  outlasts : Outlasts NoRemoval IsRunOf IsOf
  outlasts = record {
    inside = λ r h. h;
    outside = λ h r i j. j;
    failed = failed;
    recorded = λ d r h. h;
  }

  abbrev Disposed : History → Run → History → Type 0
  Disposed u r t = Disposes o workspace r.result u t

  module _ ⦃host : Env⦄ (temp : FilePath) where
    drop-Disposed :
        (b : Bool) (u : History) (r : Run) (t : History)
        → preserves_workspace r ≡ b
        → IsRunOf r
        → Extends NoRemoval u t
        → let run = (if b then pure tt else Calls.rmtree r.harness.workspace) r t in
          Disposed u run.1 run.2
    unfolding pure Calls.rmtree preserves_workspace
    drop-Disposed true u r t e (i, j) x = Disposes.kept (is_kept o r.result (rw (sym i) e)) x
    drop-Disposed false u r t e (i, j) x =
        Disposes.dropped t (is_not_kept o r.result (rw (sym i) e)) x (rw j refl)

    abbrev Ends : {A : Type 0} → Exec Run A → Type 0
    Ends = Throughout NoRemoval IsRunOf Disposed

    drop_workspace-Ends : Ends (drop_workspace temp)
    unfolding drop_workspace gets ◌>>=◌ continue
    drop_workspace-Ends = record {
      at = λ u r t a i x e. drop-Disposed (preserves_workspace r) u r t refl i x;
    }

    Ends-then :
        {A B : Type 0} (m : Exec Run A) (f : A → Exec Run B)
        → Within (Unit {0}) IsRunOf NoRemoval IsPlain m
        → ((a : A) → Ends (f a))
        → Ends (m >>= f)
    Ends-then m f w k = Throughout-bind m f w k

    cleanup-Ends : Ends (cleanup temp)
    unfolding cleanup
    cleanup-Ends =
        let calm = NoRemoval-of_calm in
        let ends = NoRemoval-of_ending in
        Ends-then _ _ (collect-Keeping free temp calm ends outlasts lasting.moved) λ _.
          Ends-then _ _ (search plain_rules) λ debug.
            Ends-then _ _ (show_debug-Keeping free temp calm ends outlasts debug) λ _.
              Ends-then _ _ (search plain_rules) λ owns.
                Ends-then _ _
                  (detach_owned_port-Keeping free temp calm ends outlasts lasting.moved owns)
                  λ _. Ends-then _ _ (stop-Keeping free temp calm ends outlasts) λ _.
                    Ends-then _ _ (search plain_rules) λ none_yet.
                      Ends-then _ _ (record_end-Keeping free temp calm ends outlasts none_yet)
                        λ _. drop_workspace-Ends

    guarded-Ends : Ends (guarded temp)
    unfolding guarded
    guarded-Ends =
        Throughout-finally _ _
          (Within-catch _ _ (lifecycle-TidyRun (Unit {0}) lasting permits free temp)
            (handle-TidyRun (Unit {0}) IsOf NoRemoval-of_calm temp))
          cleanup-Ends

    execute_run-Ends : Ends (execute_run temp)
    unfolding execute_run Calls.mkdir
    execute_run-Ends = Ends-then _ _ (search plain_rules) λ workspace.
        Ends-then _ _ (search plain_rules) λ output_dir. Ends-then _ _ (search plain_rules) λ _.
          Ends-then _ _ (search plain_rules) λ _.
            Ends-then _ _
              (self-TidyRun (Unit {0}) IsOf base_metadata
                (base_metadata-Tidy free NoRemoval-of_calm))
              λ d. Ends-then _ _ (self-TidyRun (Unit {0}) IsOf _ (search plain_rules)) λ _.
                Ends-then _ _
                  (self-TidyRun (Unit {0}) IsOf save_metadata
                    (save_metadata-Tidy free NoRemoval-of_calm))
                  λ _. Throughout-gets _ _ guarded-Ends

-- A run that returns its exit code removes nothing if it was to build only and the code is 0, or if a
-- failed workspace is to be kept and the code is not 0; else it removes its workspace with its last call,
-- and nothing before.
pub execute-DropsWorkspace :
    ⦃host : Env⦄ (temp : FilePath) (r : Run) (t : History) (code : ℤ)
    → (execute_run temp r t).0 ≡ ok code
    → Disposes r.harness.options r.harness.workspace code t (execute_run temp r t).2
execute-DropsWorkspace temp r t code e =
    let disposed =
      (execute_run-Ends r.harness.options r.harness.workspace temp).at t r t code (refl, refl) same
        e in
    rw ((execute_run-Leads temp).at r t code e) disposed
