-- ===== src/Control/Filed.antt =====
-- The commands that change the dict of the state file write it with their last call.
use canokey_usbip.Prelude.{◌≡◌, refl, ℕ, List, ◌∷◌}
use canokey_usbip.Host.{
  Event, FilePath, History, Env, Exc, Exec, JsonDict, json, Result, ok, raised, diverged, gets,
  modify, raise, recover, catch, continue, ◌>>=◌,
}
use canokey_usbip.Host.Calls
use canokey_usbip.Host.Leads.{Leads, Leads-bind}
use canokey_usbip.Control.Command.{Command}
use canokey_usbip.Control.State.{Session, save_state}
use canokey_usbip.Control.Start.{attach_device, bring_up, undo, bring_up_or_undo, start}
use canokey_usbip.Control.Main.{stop_device, act}

-- The latest call has written this dict to the state file.
abbrev pub IsFiled : Session → History → Type 0
IsFiled s t = (u : History) × (t ≡ Event.write_text s.state_path (json s.state) ∷ u)

abbrev Files : {A : Type 0} → Exec Session A → Type 0
Files = Leads (λ a. IsFiled)

raise-Files : {A : Type 0} (e : Exc) → Files (raise {A = A} e)
unfolding raise
raise-Files e = record { at = λ s t a i. absurd (cc) }

Files-then :
    {A B : Type 0} (m : Exec Session A) (f : A → Exec Session B)
    → ((a : A) → Files (f a))
    → Files (m >>= f)
Files-then m f k = Leads-bind (λ a. IsFiled) m f k

Files-recover :
    {A : Type 0} (r : Result A) (handler : Exc → Exec Session A) (s : Session) (t : History) (a : A)
    → ((a : A) → r ≡ ok a → IsFiled s t)
    → ((e : Exc) → Files (handler e))
    → (recover r handler s t).0 ≡ ok a
    → IsFiled (recover r handler s t).1 (recover r handler s t).2
unfolding recover
Files-recover (ok b) handler s t a h k e = h b refl
Files-recover (raised x) handler s t a h k e = (k x).at s t a e
Files-recover diverged handler s t a h k e = absurd (cc)

Files-catch :
    {A : Type 0} (m : Exec Session A) (handler : Exc → Exec Session A)
    → Files m
    → ((e : Exc) → Files (handler e))
    → Files (catch m handler)
unfolding catch
Files-catch m handler w k = record {
  at = λ s t a e.
      let (r, s', t') = m s t in Files-recover r handler s' t' a (λ b i. w.at s t b i) k e;
}

module _ ⦃host : Env⦄ where
  save_state-Files : (entries : JsonDict) → Files (save_state entries)
  unfolding save_state gets modify ◌>>=◌ continue Calls.write_text
  save_state-Files entries = record { at = λ s t a e. (t, refl) }

  attach_device-Files : (before : List FilePath) → Files (attach_device before)
  unfolding attach_device
  attach_device-Files before = search (Files-then, save_state-Files) depth 10

  bring_up-Files : (pid : ℕ) (before : List FilePath) → Files (bring_up pid before)
  unfolding bring_up
  bring_up-Files pid before = search (Files-then, attach_device-Files) depth 20

  undo-Files : (pid : ℕ) (e : Exc) → Files (undo pid e)
  unfolding undo
  undo-Files pid e = search (Files-then, raise-Files) depth 20

  start-Files : Files start
  unfolding start bring_up_or_undo
  start-Files = search (Files-then, Files-catch, bring_up-Files, undo-Files) depth 40

  stop_device-Files : Files stop_device
  unfolding stop_device
  stop_device-Files = search (Files-then, save_state-Files) depth 20

  pub start_command-Files : Files (act Command.start)
  unfolding act
  start_command-Files = start-Files

  pub stop-Files : Files (act Command.stop)
  unfolding act
  stop-Files = stop_device-Files

  pub restart-Files : Files (act Command.restart)
  unfolding act
  restart-Files = search (Files-then, start-Files) depth 20

  pub attach-Files : Files (act Command.attach)
  unfolding act
  attach-Files = search (Files-then, attach_device-Files) depth 10

  pub detach-Files : Files (act Command.detach)
  unfolding act
  detach-Files = search (Files-then, save_state-Files) depth 10
