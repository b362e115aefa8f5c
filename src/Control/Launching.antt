-- ===== src/Control/Launching.antt =====
-- `start` and `restart` name the process that they have started.
use canokey_usbip.Prelude.{none, ◌≡◌, refl, ℕ, pos, String, some, List, [], ◌∷◌}
use canokey_usbip.Host.{
  Event, FilePath, History, Env, Exec, Os, done, failed, ok, Json, continue, ◌>>=◌,
}
use canokey_usbip.Host.Calls
use canokey_usbip.Host.Calls.{of_os}
use canokey_usbip.Host.Emits.{Extends, same, Extends-mono}
use canokey_usbip.Host.Plain.{free, Anything, plain_rules}
use canokey_usbip.Host.Reaches.{Ends-ok}
use canokey_usbip.Host.Throughout.{Throughout, Throughout-bind}
use canokey_usbip.Platform.{Platform, prepare_host, matching_usb_devices}
use canokey_usbip.Platform.Gentle.{Gentle}
use canokey_usbip.Platform.Reading.{prepare_host-Gentle, matching_usb_devices-Gentle}
use canokey_usbip.Control.Command.{Command}
use canokey_usbip.Control.State.{Session, save_state}
use canokey_usbip.Control.Start.{with_platform, bring_up_or_undo, start}
use canokey_usbip.Control.Main.{act}
use canokey_usbip.Control.Reading.{required-Within, text_of-Within, platform_of-Within}
use canokey_usbip.Control.Sparing.{
  RemovesNothing, Sparing, any_write, with_platform-Sparing, save_state-Sparing, bring_up-Sparing,
  undo-Sparing, stop_device-Sparing, await_removal-Sparing,
}
use canokey_usbip.Control.Named.{NamesBoth, from_process}

abbrev Any : Event → Type 0
Any e = Unit {0}

module _ ⦃host : Env⦄ where
  -- Between the two histories a process has been started, and this is its id.
  abbrev pub Launched : History → History → ℕ → Type 0
  Launched t t' pid =
      (argv : List String) × (u : History) × Extends Any t u
      × (host.popen argv none [] u ≡ done pid)
      × Extends Any (Event.popen argv none [] ∷ u) t'

  -- The file names that process, and the port of the platform.
  abbrev pub NamesLaunched : History → Session → History → Type 0
  NamesLaunched t s t' = (pid : ℕ) × Launched t t' pid × NamesBoth (some (Json.num (pos pid))) s

  abbrev Launches : {A : Type 0} → Exec Session A → Type 0
  Launches = Throughout RemovesNothing Anything NamesLaunched

  rest : ℕ → List FilePath → Exec Session (Unit {0})
  rest pid before = save_state (("pid", Json.num (pos pid)) ∷ ("usb_port", Json.null) ∷ []) >>= λ _.
      bring_up_or_undo pid before

  rest-Sparing : (pid : ℕ) (before : List FilePath) → Sparing (Unit {0}) Anything (rest pid before)
  unfolding rest bring_up_or_undo
  rest-Sparing pid before =
      search
        (
          plain_rules,
          save_state-Sparing free {F = Anything} any_write,
          bring_up-Sparing free {F = Anything} any_write,
          undo-Sparing free {F = Anything} any_write,
        )
        depth 20

  answered :
      (argv : List String) (before : List FilePath) (r : Os ℕ) (u : History) (s : Session)
      (t : History) (a : Unit {0})
      → host.popen argv none [] t ≡ r
      → Extends RemovesNothing u t
      → let run = continue (of_os r) (λ pid. rest pid before) s (Event.popen argv none [] ∷ t) in
        run.0 ≡ ok a → NamesLaunched u run.1 run.2
  unfolding continue rest
  answered argv before (done pid) u s t a h x e =
      let t' = Event.popen argv none [] ∷ t in
      let w = rest-Sparing pid before in
      (
        pid,
        (argv, t, Extends-mono (λ v p. tt) x, h, Extends-mono (λ v p. tt) (w.events s t' tt)),
        Ends-ok (NamesBoth (some (Json.num (pos pid)))) (rest pid before s t') a e
            ((from_process pid before).at s t' tt),
      )
  answered argv before (failed k m) u s t a h x e = absurd (cc)

  from_popen :
      (argv : List String) (before : List FilePath)
      → Launches (
          Calls.popen argv none [] >>= λ pid.
          save_state (("pid", Json.num (pos pid)) ∷ ("usb_port", Json.null) ∷ []) >>= λ _.
          bring_up_or_undo pid before)
  unfolding ◌>>=◌ Calls.popen rest
  from_popen argv before = record { at = λ u s t a i x e. answered argv before _ u s t a refl x e }

  Launches-then :
      {A B : Type 0} (m : Exec Session A) (f : A → Exec Session B)
      → Sparing (Unit {0}) Anything m
      → ((a : A) → Launches (f a))
      → Launches (m >>= f)
  Launches-then m f w k = Throughout-bind m f w k

  on_platform-Sparing :
      {A : Type 0} (m : Exec Platform A)
      → Gentle (Unit {0}) Anything m
      → Sparing (Unit {0}) Anything (with_platform m)
  on_platform-Sparing m w = with_platform-Sparing free {F = Anything} any_write m w

  start-Launches : Launches start
  unfolding start Calls.open_log
  start-Launches = Launches-then _ _ (search plain_rules) λ state.
      Launches-then _ _ (search platform_of-Within) λ platform.
        Launches-then _ _ (search plain_rules) λ _.
          Launches-then _ _ (on_platform-Sparing prepare_host (prepare_host-Gentle free)) λ _.
            Launches-then _ _
              (on_platform-Sparing matching_usb_devices (matching_usb_devices-Gentle free))
              λ before. Launches-then _ _ (search plain_rules) λ _.
                Launches-then _ _ (search required-Within) λ binary.
                  Launches-then _ _ (search required-Within) λ storage.
                    Launches-then _ _ (search text_of-Within) λ binary'.
                      Launches-then _ _ (search text_of-Within) λ storage'. from_popen _ before

  restart-Launches : Launches (act Command.restart)
  unfolding act
  restart-Launches = Launches-then _ _ (stop_device-Sparing free {F = Anything} any_write) λ u.
      Launches-then _ _
        (await_removal-Sparing free {F = Anything} any_write (host.environ "CANOKEY_PCSC_READER"))
        λ v. start-Launches

  pub start-NamesLaunched :
      (s : Session) (t : History)
      → (act Command.start s t).0 ≡ ok tt
      → NamesLaunched t (act Command.start s t).1 (act Command.start s t).2
  unfolding act
  start-NamesLaunched s t e = start-Launches.at t s t tt tt same e

  pub restart-NamesLaunched :
      (s : Session) (t : History)
      → (act Command.restart s t).0 ≡ ok tt
      → NamesLaunched t (act Command.restart s t).1 (act Command.restart s t).2
  restart-NamesLaunched s t e = restart-Launches.at t s t tt tt same e
