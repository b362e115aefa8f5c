-- ===== src/Harness/Saved.antt =====
-- `save_metadata` as the last write of a run, and what comes after it.
use canokey_usbip.Prelude.{◌≡◌, refl, Bool, true, false, is_empty, if◌then◌else◌, inl, inr, ◌∷◌}
use mathlib.Core.Logic.{◌⊎◌}
use canokey_usbip.Host.{
  Event, FilePath, History, join, json, Env, Result, ok, gets, pure, zoom, modify, continue, ◌>>=◌,
}
use canokey_usbip.Host.Calls
use canokey_usbip.Host.Leads.{Leads, Leads-bind, Leads-finally, Leads-gets}
use canokey_usbip.Host.Arrives.{Arrives, Arrives-bind, Arrives-look}
use canokey_usbip.Host.Plain.{plain_rules, IsPlain}
use canokey_usbip.Harness.State.{Harness}
use canokey_usbip.Harness.Lasting.{AnyEvent}
use canokey_usbip.Harness.Metadata.{save_metadata}
use canokey_usbip.Harness.Execute.{
  Run, self, preserves_workspace, record_end, drop_workspace, cleanup, guarded, execute_run,
}

-- The latest call has written this metadata.
abbrev pub IsSaved : Harness → History → Type 0
IsSaved h t =
    (u : History) × (t ≡ Event.write_text (join h.output_dir "metadata.json") (json h.metadata) ∷ u)

-- The latest call but for the removal of the workspace.
abbrev pub IsLast : Run → History → Type 0
IsLast r t =
    ((preserves_workspace r ≡ true) × IsSaved r.harness t)
    ⊎ ((preserves_workspace r ≡ false)
        × (u : History) × (t ≡ Event.rmtree r.harness.workspace ∷ u)
        × IsSaved r.harness u)

-- If there is metadata at all.
abbrev Ready : Run → History → Type 0
Ready r t = is_empty r.harness.metadata ≡ false → IsSaved r.harness t

abbrev pub Finished : Run → History → Type 0
Finished r t = is_empty r.harness.metadata ≡ false → IsLast r t

module _ ⦃host : Env⦄ where
  save_metadata-IsSaved : (h : Harness) → Arrives {A = Unit {0}} (λ s. s ≡ h) IsSaved save_metadata
  unfolding save_metadata Calls.mkdir Calls.write_text
  save_metadata-IsSaved h = Arrives-look _ _ λ s i. Arrives-look _ _ λ s' j.
      Arrives-bind {D = Unit {0}} {P = AnyEvent} {E = IsPlain} _ _ (search plain_rules)
        λ u. record { at = λ q t a k e. (t, cc) }

  drop-Finished :
      (b : Bool) (r : Run) (t : History)
      → preserves_workspace r ≡ b
      → Ready r t
      → let run = (if b then pure tt else Calls.rmtree r.harness.workspace) r t in
        Finished run.1 run.2
  unfolding pure Calls.rmtree
  drop-Finished true r t e ready n = inl (e, ready n)
  drop-Finished false r t e ready n = inr (e, t, refl, ready n)

module _ ⦃host : Env⦄ (temp : FilePath) where
  drop_workspace-Finished :
      (r : Run) (t : History)
      → Ready r t
      → Finished (drop_workspace temp r t).1 (drop_workspace temp r t).2
  unfolding drop_workspace gets ◌>>=◌ continue
  drop_workspace-Finished r t ready = drop-Finished (preserves_workspace r) r t refl ready

  after_save :
      (x : Result (Unit {0})) (r : Run) (t : History)
      → ((a : Unit {0}) → x ≡ ok a → Ready r t)
      → (a : Unit {0}) → (continue x (λ u. drop_workspace temp) r t).0 ≡ ok a
      → Finished
          (continue x (λ u. drop_workspace temp) r t).1
          (continue x (λ u. drop_workspace temp) r t).2
  unfolding continue
  after_save (ok b) r t k a e = drop_workspace-Finished r t (k b refl)
  after_save (Result.raised y) r t k a e = absurd (cc)
  after_save Result.diverged r t k a e = absurd (cc)

  save_last : Leads (λ (a : Unit {0}). Finished) (self save_metadata >>= λ u. drop_workspace temp)
  unfolding self zoom ◌>>=◌
  save_last = record {
    at = λ r t a e.
        let saved = (save_metadata-IsSaved r.harness).at r.harness t in
        let (x, h, u) = save_metadata r.harness t in
        after_save x (record r { harness = h }) u (λ b i n. saved b refl i) a e;
  }

  record_end-Finished :
      (none_yet : Bool) (r : Run) (t : History)
      → is_empty r.harness.metadata ≡ none_yet
      → (a : Unit {0}) → ((record_end temp none_yet >>= λ u. drop_workspace temp) r t).0 ≡ ok a
      → let run = (record_end temp none_yet >>= λ u. drop_workspace temp) r t in
        Finished run.1 run.2
  unfolding record_end ◌>>=◌ modify continue Calls.utc_now pure
  record_end-Finished true r t i a e = drop_workspace-Finished r t (λ n. absurd (cc))
  record_end-Finished false r t i a e = save_last.at _ _ a e

  last_steps :
      Leads
        (λ (a : Unit {0}). Finished)
        (gets (λ (r : Run). is_empty r.harness.metadata) >>= λ b.
          record_end temp b >>= λ u. drop_workspace temp)
  unfolding ◌>>=◌ gets continue
  last_steps = record { at = λ r t a e. record_end-Finished _ r t refl a e }

  cleanup-Finished : Leads (λ a. Finished) (cleanup temp)
  unfolding cleanup
  cleanup-Finished = Leads-bind _ _ _ λ _. Leads-bind _ _ _ λ _.
      Leads-bind _ _ _
        λ _. Leads-bind _ _ _ λ _. Leads-bind _ _ _ λ _. Leads-bind _ _ _ λ _. last_steps

  pub execute_run-Finished : Leads (λ code. Finished) (execute_run temp)
  unfolding execute_run guarded
  execute_run-Finished = Leads-bind _ _ _ λ _. Leads-bind _ _ _ λ _. Leads-bind _ _ _ λ _.
      Leads-bind _ _ _ λ _. Leads-bind _ _ _ λ _. Leads-bind _ _ _ λ _.
        Leads-bind _ _ _ λ _. Leads-gets Finished _ _ (Leads-finally Finished _ _ cleanup-Finished)
