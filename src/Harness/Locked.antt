-- ===== src/Harness/Locked.antt =====
-- `acquire_lock`: what a run starts, it starts with the lock file locked.
use canokey_usbip.Prelude.{◌≡◌, refl, ◌∷◌}
use canokey_usbip.Host.{
  Event, FilePath, join, History, Env, Os, done, failed, Exc, ok, Exec, recover, raise, blocking_io,
  ◌>>=◌, catch, zoom,
}
use canokey_usbip.Host.Calls
use canokey_usbip.Host.Calls.{flock, of_os}
use canokey_usbip.Host.Emits.{Extends, same, later}
use canokey_usbip.Host.Leads.{Leads, Leads-bind}
use canokey_usbip.Host.Within.{Within}
use canokey_usbip.Host.Plain.{free, IsPlain, plain_rules, Anything}
use canokey_usbip.Host.Follows.{
  IsTransitive, Follows, Follows-bind, Follows-bind_known, Follows-catch, Follows-finally,
}
use canokey_usbip.Harness.State.{Harness}
use canokey_usbip.Harness.Core.{lock_failed, acquire_lock}
use canokey_usbip.Harness.Metadata.{base_metadata, save_metadata}
use canokey_usbip.Harness.Tidy.{IsCalm, acquire_lock-Tidy}
use canokey_usbip.Harness.TidyRun.{IsEnding, base_metadata-Tidy, save_metadata-Tidy}
use canokey_usbip.Harness.Lasting.{AnyEvent, any_event, anything}
use canokey_usbip.Harness.Cleanup.{cleanup-Keeping}
use canokey_usbip.Harness.RunRules.{
  self-TidyRun, TidyRun, lifecycle-from_lock, lifecycle-TidyRun, handle-TidyRun,
}
use canokey_usbip.Harness.Execute.{Run, self, lifecycle, handle, cleanup, guarded, execute_run}

-- A call of flock for this file has worked.
pub data IsLocked ⦃host : Env⦄ (lock : FilePath) : History → Type 0 where
  locked : {t : History} → host.flock lock t ≡ done tt → IsLocked lock (Event.flock lock ∷ t)
  still : {t : History} (e : Event) → IsLocked lock t → IsLocked lock (e ∷ t)

abbrev pub IsStart : Event → Type 0
IsStart (Event.popen argv cwd added) = Unit
IsStart _ = ⊥

-- `u` is `t` with further events; each start of a process comes after a lock of this file.
pub data StartsLocked ⦃host : Env⦄ (lock : FilePath) (t : History) : History → Type 0 where
  nothing : StartsLocked lock t t
  next :
      {u : History} (e : Event)
      → (IsStart e → IsLocked lock u)
      → StartsLocked lock t u
      → StartsLocked lock t (e ∷ u)

-- Anything but the start of a process.
abbrev NoStart : Event → Type 0
NoStart e = IsStart e → ⊥

NoStart-of_calm : (e : Event) → IsCalm e → NoStart e
NoStart-of_calm (Event.popen argv cwd added) h s = absurd h
NoStart-of_calm _ h s = absurd s

NoStart-of_ending : (e : Event) → IsEnding e → NoStart e
NoStart-of_ending (Event.popen argv cwd added) h s = absurd h
NoStart-of_ending _ h s = absurd s

module _ ⦃host : Env⦄ {lock : FilePath} where
  StartsLocked-trans :
      {t u v : History} → StartsLocked lock t u → StartsLocked lock u v → StartsLocked lock t v
  StartsLocked-trans x nothing = x
  StartsLocked-trans x (next e p y) = next e p (StartsLocked-trans x y)

  StartsLocked-of_quiet : {t u : History} → Extends NoStart t u → StartsLocked lock t u
  StartsLocked-of_quiet same = nothing
  StartsLocked-of_quiet (later e p x) = next e (λ s. absurd (p s)) (StartsLocked-of_quiet x)

  IsLocked-later : {t u : History} → Extends AnyEvent t u → IsLocked lock t → IsLocked lock u
  IsLocked-later same h = h
  IsLocked-later (later e p x) h = still e (IsLocked-later x h)

  StartsLocked-of_locked :
      {t u : History} → IsLocked lock t → Extends AnyEvent t u → StartsLocked lock t u
  StartsLocked-of_locked h same = nothing
  StartsLocked-of_locked h (later e p x) =
      next e (λ s. IsLocked-later x h) (StartsLocked-of_locked h x)

  transitive : IsTransitive (StartsLocked lock)
  transitive = record { itself = λ t. nothing; trans = λ t u v x y. StartsLocked-trans x y }

  -- What starts nothing.
  Follows-of_quiet :
      {D A : Type 0} {E : Exc → Type 0} (m : Exec Run A)
      → Within D Anything NoStart E m
      → Follows (StartsLocked lock) m
  Follows-of_quiet m w = record { at = λ s t. StartsLocked-of_quiet (w.events s t tt) }

-- The path of the lock file, from the directory of temporary files.
abbrev pub lock_file : FilePath → FilePath
lock_file temp = join temp "canokey-usbip.lock"

module _ ⦃host : Env⦄ (temp : FilePath) where
  answered :
      (r : Os (Unit {0})) (s : Harness) (t : History)
      → host.flock (lock_file temp) t ≡ r
      → (a : Unit {0})
      → (recover (of_os r) lock_failed s (Event.flock (lock_file temp) ∷ t)).0 ≡ ok a
      → IsLocked
          (lock_file temp)
          (recover (of_os r) lock_failed s (Event.flock (lock_file temp) ∷ t)).2
  unfolding recover lock_failed raise
  answered (done tt) s t h a e = locked h
  answered (failed blocking_io m) s t h a e = absurd (cc)
  answered (failed k m) s t h a e = absurd (cc)

  acquire_lock-Locks : Leads (λ a s. IsLocked (lock_file temp)) (acquire_lock temp)
  unfolding acquire_lock catch Calls.flock
  acquire_lock-Locks = Leads-bind _ _ _ λ u. record { at = λ s t a e. answered _ s t refl a e }

  self-Locks : Leads (λ a s. IsLocked (lock_file temp)) (self (acquire_lock temp))
  unfolding self zoom
  self-Locks = record { at = λ s t a e. acquire_lock-Locks.at s.harness t a e }

  abbrev Follow : {A : Type 0} → Exec Run A → Type 0
  Follow = Follows (StartsLocked (lock_file temp))

  -- What comes after the lock may do anything.
  locked_first :
      {A : Type 0} (f : Unit {0} → Exec Run A)
      → ((u : Unit {0}) → TidyRun (Unit {0}) Anything AnyEvent (f u))
      → Follow (self (acquire_lock temp) >>= f)
  locked_first f w =
      Follows-bind_known transitive _ f
        (Follows-of_quiet _ (
          self-TidyRun (Unit {0}) Anything (acquire_lock temp)
            (acquire_lock-Tidy NoStart-of_calm temp)))
        (λ s t a e. StartsLocked-of_locked (self-Locks.at s t a e) ((w a).events _ _ tt))

  lifecycle-Follow : Follow (lifecycle temp)
  lifecycle-Follow = lifecycle-from_lock (Unit {0}) anything any_event free temp Follow locked_first

  handle-Follow : (e : Exc) → IsPlain e → Follow (handle temp e)
  handle-Follow e p =
      Follows-of_quiet _ (handle-TidyRun (Unit {0}) Anything NoStart-of_calm temp e p)

  cleanup-Follow : Follow (cleanup temp)
  cleanup-Follow = Follows-of_quiet _ (
      cleanup-Keeping free temp NoStart-of_calm NoStart-of_ending
        (record {
          inside = λ r h. tt;
          outside = λ h r i j. tt;
          failed = λ why r h. tt;
          recorded = λ d r h. tt;
        })
        anything.moved (λ r h s. absurd s))

  guarded-Follow : Follow (guarded temp)
  unfolding guarded
  guarded-Follow =
      Follows-finally transitive _ _
        (Follows-catch transitive (Unit {0}) _ _
          (λ s t. (lifecycle-TidyRun (Unit {0}) anything any_event free temp).errors s t tt)
          lifecycle-Follow handle-Follow)
        cleanup-Follow

  -- First what starts nothing.
  Follow-then :
      {A B : Type 0} (m : Exec Run A) (f : A → Exec Run B)
      → Within (Unit {0}) Anything NoStart IsPlain m
      → ((a : A) → Follow (f a))
      → Follow (m >>= f)
  Follow-then m f w k = Follows-bind transitive m f (Follows-of_quiet m w) k

  execute_run-Follow : Follow (execute_run temp)
  unfolding execute_run Calls.mkdir
  execute_run-Follow = Follow-then _ _ (search plain_rules) λ workspace.
      Follow-then _ _ (search plain_rules) λ output_dir.
        Follow-then _ _ (search (plain_rules, NoStart-of_calm)) λ u.
          Follow-then _ _ (search (plain_rules, NoStart-of_calm)) λ u.
            Follow-then _ _
              (self-TidyRun (Unit {0}) Anything base_metadata
                (base_metadata-Tidy free NoStart-of_calm))
              λ d. Follow-then _ _ (self-TidyRun (Unit {0}) Anything _ (search plain_rules)) λ u.
                Follow-then _ _
                  (self-TidyRun (Unit {0}) Anything save_metadata
                    (save_metadata-Tidy free NoStart-of_calm))
                  λ u.
                    Follows-bind transitive _ _ guarded-Follow
                      λ u. Follows-of_quiet {D = Unit {0}} {E = IsPlain} _ (search plain_rules)

-- Whatever the host answers, a run starts a process, be it the server or the test command, only after a
-- call of flock has locked the lock file, whose name is fixed in the directory of temporary files.
pub execute-StartsLocked :
    ⦃host : Env⦄ (temp : FilePath) (r : Run) (t : History)
    → StartsLocked (lock_file temp) t (execute_run temp r t).2
execute-StartsLocked temp r t = (execute_run-Follow temp).at r t
