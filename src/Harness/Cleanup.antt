-- ===== src/Harness/Cleanup.antt =====
-- The `finally` block of `execute` keeps each invariant of the run that the block's own failures keep,
-- and starts nothing.
use canokey_usbip.Prelude.{
  String, List, [], ◌∷◌, Bool, true, false, if◌then◌else◌, is_empty, update,
}
use canokey_usbip.Host.{FilePath, Event, JsonDict, Env, Exec, pure, gets, ◌>>=◌}
use canokey_usbip.Host.Calls
use canokey_usbip.Host.Calls.{rmtree}
use canokey_usbip.Host.Within.{Within, Within-zoom, Within-bind}
use canokey_usbip.Host.Plain.{IsPlain, Bounded, plain_rules}
use canokey_usbip.Platform.Reading.{collect_debug-Gentle}
use canokey_usbip.Platform.Harmless.{detach-Gentle}
use canokey_usbip.Harness.State.{Harness}
use canokey_usbip.Harness.Tidy.{Tidy, IsCalm, IgnoresPlatform, on_platform-Tidy}
use canokey_usbip.Harness.TidyRun.{IsEnding, stop_server-Tidy, save_metadata-Tidy}
use canokey_usbip.Harness.Execute.{
  preserves_workspace, fail_cleanup, Run, self, collect, show_files, show_debug, detach_owned_port,
  stop, record_end, drop_workspace, cleanup,
}

-- The parts of a run's invariant: `J` of the harness, and what else the block may change.
pub record Outlasts (P : Event → Type 0) (I : Run → Type 0) (J : Harness → Type 0) : Type 0 where
  pub inside : (r : Run) → I r → J r.harness
  pub outside : (h : Harness) (r : Run) → I r → J h → I (record r { harness = h })
  pub failed : (why : String) (r : Run) → I r → I (fail_cleanup why r)
  pub recorded :
      (d : JsonDict) (r : Run)
      → I r
      → I (record r { harness = record r.harness { metadata = update r.harness.metadata d } })

module _ ⦃host : Env⦄ {D : Type 0} (c : Bounded D host) (temp : FilePath) {P : Event → Type 0}
    {I : Run → Type 0} {J : Harness → Type 0} (calm : (e : Event) → IsCalm e → P e)
    (ends : (e : Event) → IsEnding e → P e) (laws : Outlasts P I J) where
  abbrev Keeping : {A : Type 0} → Exec Run A → Type 0
  Keeping = Within D I P IsPlain

  self-Keeping : {A : Type 0} (m : Exec Harness A) → Tidy D J P m → Keeping (self m)
  unfolding self
  self-Keeping m w = Within-zoom _ _ m w laws.inside (λ q s h j. laws.outside q s h j) (λ e p. p)

  show_files-Keeping : (d : FilePath) (names : List String) → Keeping (show_files temp d names)
  unfolding show_files Calls.exists Calls.print_error Calls.read_text
  show_files-Keeping d [] = search plain_rules
  show_files-Keeping d (n ∷ ns) =
      Within-bind _ _ (search plain_rules)
        λ present. Within-bind _ _ (search plain_rules depth 20) (λ u. show_files-Keeping d ns)

  pub show_debug-Keeping : (b : Bool) → Keeping (show_debug temp b)
  unfolding show_debug
  show_debug-Keeping false = search plain_rules
  show_debug-Keeping true = search (plain_rules, show_files-Keeping) depth 10

  pub stop-Keeping : Keeping (stop temp)
  unfolding stop Calls.append_text
  stop-Keeping = search (plain_rules, self-Keeping, stop_server-Tidy, laws.failed) depth 20

  pub record_end-Keeping : (b : Bool) → Keeping (record_end temp b)
  unfolding record_end Calls.utc_now
  record_end-Keeping true = search plain_rules
  record_end-Keeping false =
      search (plain_rules, self-Keeping, save_metadata-Tidy, laws.recorded) depth 20

  -- With a removal that is allowed.
  module _ (removes : (r : Run) → I r → P (Event.rmtree r.harness.workspace)) where
    -- The one removal: of the path that the state holds.
    removal :
        (b : Bool) (r : Run) → I r → Keeping (if b then pure tt else rmtree r.harness.workspace)
    unfolding Calls.rmtree
    removal true r h = search plain_rules
    removal false r h = search (plain_rules, removes r h)

    drop_workspace-Keeping : Keeping (drop_workspace temp)
    unfolding drop_workspace ◌>>=◌ gets
    drop_workspace-Keeping = record {
      state = λ r t h. (removal (preserves_workspace r) r h).state r t h;
      events = λ r t h. (removal (preserves_workspace r) r h).events r t h;
      errors = λ r t h. (removal (preserves_workspace r) r h).errors r t h;
    }

    -- What follows the detachment.
    pub rest-Keeping : Keeping (
        stop temp >>= λ _. gets (λ (r : Run). is_empty r.harness.metadata) >>= λ b.
        record_end temp b >>= λ _. drop_workspace temp)
    rest-Keeping =
        search (plain_rules, stop-Keeping, record_end-Keeping, drop_workspace-Keeping) depth 20

  module _ (moved : IgnoresPlatform J) where
    pub collect-Keeping : Keeping (collect temp)
    unfolding collect Calls.write_text
    collect-Keeping =
        search (plain_rules, self-Keeping, on_platform-Tidy, collect_debug-Gentle) depth 20

    pub detach_owned_port-Keeping : (b : Bool) → Keeping (detach_owned_port temp b)
    unfolding detach_owned_port Calls.write_text
    detach_owned_port-Keeping false = search plain_rules
    detach_owned_port-Keeping true =
        search (plain_rules, self-Keeping, on_platform-Tidy, detach-Gentle, laws.failed) depth 20

    module _ (removes : (r : Run) → I r → P (Event.rmtree r.harness.workspace)) where
      pub cleanup-Keeping : Keeping (cleanup temp)
      unfolding cleanup
      cleanup-Keeping = Within-bind _ _ collect-Keeping λ u.
          Within-bind _ _ (search plain_rules) λ debug.
            Within-bind _ _ (show_debug-Keeping debug) λ u.
              Within-bind _ _ (search plain_rules)
                λ owns. Within-bind _ _ (detach_owned_port-Keeping owns) λ u. rest-Keeping removes
