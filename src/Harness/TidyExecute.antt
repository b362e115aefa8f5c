-- ===== src/Harness/TidyExecute.antt =====
-- What follows of the rules of a whole run: it removes nothing but its workspace, and it ends.
use canokey_usbip.Prelude.{◌≢◌, ◌≡◌, inr, refl}
use canokey_usbip.Host.{IsClock, diverged, Event, FilePath, Env, History}
use canokey_usbip.Host.Emits.{Extends}
use canokey_usbip.Host.Within.{ended, Within}
use canokey_usbip.Host.Plain.{free, IsPlain, Bounded}
use canokey_usbip.Harness.State.{Harness}
use canokey_usbip.Harness.Tidy.{IsCalm}
use canokey_usbip.Harness.TidyRun.{IsEnding}
use canokey_usbip.Harness.Execute.{Run, execute_run}
use canokey_usbip.Harness.RunRules.{execute_run-TidyRun}

-- Nothing is removed but this directory.
abbrev pub OnlyRemoves : FilePath → Event → Type 0
OnlyRemoves ws (Event.rmtree p) = p ≡ ws
OnlyRemoves ws _ = Unit

OnlyRemoves-of_calm : (ws : FilePath) (e : Event) → IsCalm e → OnlyRemoves ws e
OnlyRemoves-of_calm ws (Event.rmtree p) h = absurd h
OnlyRemoves-of_calm ws _ h = tt

OnlyRemoves-of_ending : (ws : FilePath) (e : Event) → IsEnding e → OnlyRemoves ws e
OnlyRemoves-of_ending ws (Event.rmtree p) h = absurd h
OnlyRemoves-of_ending ws _ h = tt

abbrev pub HasWorkspace : FilePath → Harness → Type 0
HasWorkspace ws h = h.workspace ≡ ws

-- Nothing changes the path of the workspace, and only its removal is one.
pub execute_run-HasWorkspace :
    ⦃host : Env⦄ (D : Type 0)
    → Bounded D host
    → (ws temp : FilePath)
    → Within D (λ r. HasWorkspace ws r.harness) (OnlyRemoves ws) IsPlain (execute_run temp)
execute_run-HasWorkspace D c ws temp =
    execute_run-TidyRun D {J = HasWorkspace ws}
      (record {
        moved = λ h p j. j;
        served = λ h pid j. j;
        resolved = λ h core j. j;
        built = λ h b j. j;
        noted = λ h d e j. j;
      })
      (record {
        calm = OnlyRemoves-of_calm ws;
        starts = λ argv cwd added. tt;
        ends = OnlyRemoves-of_ending ws;
      })
      c temp (λ h j. j)

-- Whatever the host answers, a run removes no directory but its own workspace, and it never moves its
-- workspace.
pub execute-OnlyRemoves :
    ⦃host : Env⦄ (temp : FilePath) (r : Run) (t : History)
    → let (code, r', t') = execute_run temp r t in
      Extends (OnlyRemoves r.harness.workspace) t t' × (r'.harness.workspace ≡ r.harness.workspace)
execute-OnlyRemoves temp r t =
    let w = execute_run-HasWorkspace (Unit {0}) free r.harness.workspace temp in
    (w.events r t refl, w.state r t refl)

-- With a clock that does what time.monotonic and time.sleep document, and programs and calls that
-- return, a run ends: whatever fails, none of its loops runs for ever.
pub execute-ends :
    ⦃host : Env⦄
    → IsClock host
    → (temp : FilePath) (r : Run) (t : History) → (execute_run temp r t).0 ≢ diverged
execute-ends clock temp r t =
    ended (λ (r' : Run). HasWorkspace r.harness.workspace r'.harness) (execute_run temp)
      (execute_run-HasWorkspace ⊥ (inr clock) r.harness.workspace temp) r t refl
