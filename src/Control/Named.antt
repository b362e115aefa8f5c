-- ===== src/Control/Named.antt =====
-- The process and the port that the commands name in the state file.
use canokey_usbip.Prelude.{◌≡◌, ℕ, pos, Option, some, List, [], ◌∷◌, lookup, insert, lookup-insert}
use canokey_usbip.Host.{FilePath, Env, Exc, Exec, Json, JsonDict, gets, modify, continue, ◌>>=◌}
use canokey_usbip.Host.Calls
use canokey_usbip.Host.Within.{Within}
use canokey_usbip.Host.Plain.{free, plain_rules, IsPlain, IsHarmless}
use canokey_usbip.Host.Polling.Stays.{poll_for-Within}
use canokey_usbip.Host.Reaches.{
  Reaches, Reaches-then, Reaches-bind, Reaches-catch_all, Ends-Within, Ends-raise,
}
use canokey_usbip.Platform.{attach, detach, wait_ready}
use canokey_usbip.Platform.Reading.{matching_usb_devices-Gentle, wait_ready-Gentle}
use canokey_usbip.Platform.Harmless.{attach-Gentle, detach-Gentle}
use canokey_usbip.Control.Command.{Command}
use canokey_usbip.Control.State.{Session, save_state}
use canokey_usbip.Control.Start.{
  port_json, stopped_entries, attach_device, bring_up, undo, bring_up_or_undo,
}
use canokey_usbip.Control.Main.{stop_device, act}
use canokey_usbip.Control.Undo.{
  NamesPort, NamesNothing, write_dict, write_dict-Within, stopped-NamesNothing, named-NamesPort,
}
use canokey_usbip.Control.Reading.{required-Within, int_of-Within, started_or_timeout-Within}
use canokey_usbip.Control.Apart.{Apart, with_platform-Apart, check_started-Apart}

abbrev pub Free : Session → Type 0
Free s = Unit {0}

-- The file names this process.
abbrev Pid : Option Json → JsonDict → Type 0
Pid v d = lookup "pid" d ≡ v

abbrev NamesPid : Option Json → Session → Type 0
NamesPid v s = Pid v s.state

-- The file names this process, and the port of the platform.
abbrev pub NamesBoth : Option Json → Session → Type 0
NamesBoth v s = NamesPid v s × NamesPort s

module _ (v : Option Json) where
  module _ ⦃host : Env⦄ where
    named-NamesPid :
        (s : Session)
        → NamesPid v s
        → NamesPid v
            (record s { state = insert "usb_port" (port_json s.platform.usb_port) s.state })
    named-NamesPid s h = simp (lookup-insert, h)

    name_port-NamesBoth : Reaches {A = Unit {0}} (NamesPid v) (NamesBoth v) Free (
        gets (λ (s : Session). s.platform.usb_port) >>= λ port.
        save_state (("usb_port", port_json port) ∷ []))
    unfolding save_state ◌>>=◌ modify continue gets
    name_port-NamesBoth = record {
      at = λ s t h.
          Ends-Within write_dict (write_dict-Within (NamesBoth v)) (λ r i. i) (λ r i. tt) _ t
            (named-NamesPid s h, named-NamesPort s);
    }

    attach_device-NamesBoth :
        (before : List FilePath) → Reaches (NamesPid v) (NamesBoth v) Free (attach_device before)
    unfolding attach_device
    attach_device-NamesBoth before =
        Reaches-bind _ _ (with_platform-Apart (Pid v) (attach before) (attach-Gentle free before))
          (λ s h. tt)
          λ _.
            Reaches-bind _ _ (with_platform-Apart (Pid v) wait_ready (wait_ready-Gentle free))
              (λ s h. tt) λ _. name_port-NamesBoth

    Apart-then :
        {A B : Type 0} (m : Exec Session A) (f : A → Exec Session B)
        → Apart (Pid v) m
        → ((a : A) → Reaches (NamesPid v) (NamesBoth v) Free (f a))
        → Reaches (NamesPid v) (NamesBoth v) Free (m >>= f)
    Apart-then m f w k = Reaches-bind m f w (λ s h. tt) k

    bring_up-NamesBoth :
        (pid : ℕ) (before : List FilePath)
        → Reaches (NamesPid v) (NamesBoth v) Free (bring_up pid before)
    unfolding bring_up
    bring_up-NamesBoth pid before = Apart-then _ _ (search plain_rules) λ state.
        Apart-then _ _ (required-Within "timeout" state) λ seconds.
          Apart-then _ _ (int_of-Within (some seconds)) λ timeout.
            Apart-then _ _
              (search (plain_rules, poll_for-Within, check_started-Apart (Pid v) pid, free))
              λ r. Apart-then _ _ (started_or_timeout-Within r) λ _. attach_device-NamesBoth before

Free-then :
    {A B : Type 0} {Q : Session → Type 0} (m : Exec Session A) (f : A → Exec Session B)
    → ((a : A) → Reaches Free Q Free (f a))
    → Reaches Free Q Free (m >>= f)
Free-then m f k = Reaches-then m f (λ s. tt) k

module _ ⦃host : Env⦄ where
  save_state-Within : (d : JsonDict) → Within (Unit {0}) Free IsHarmless IsPlain (save_state d)
  unfolding save_state Calls.write_text
  save_state-Within d = search plain_rules depth 10

  -- What is undone never returns.
  undo-Reaches : (Q : Session → Type 0) (pid : ℕ) (e : Exc) → Reaches Free Q Free (undo pid e)
  unfolding undo
  undo-Reaches Q pid e = Free-then _ _ λ _. Free-then _ _ λ _. Free-then _ _ λ _. record {
    at = λ s t h.
        Ends-raise (Unit {0}) Q (save_state stopped_entries) e (save_state-Within stopped_entries)
          (λ r i. tt) s t tt;
  }

  bring_up_or_undo-NamesBoth :
      (v : Option Json) (pid : ℕ) (before : List FilePath)
      → Reaches (NamesPid v) (NamesBoth v) Free (bring_up_or_undo pid before)
  unfolding bring_up_or_undo
  bring_up_or_undo-NamesBoth v pid before =
      Reaches-catch_all (bring_up pid before) (undo pid) (bring_up-NamesBoth v pid before)
        (undo-Reaches (NamesBoth v) pid)

  new-NamesPid :
      (pid : ℕ) (s : Session)
      → NamesPid (some (Json.num (pos pid))) (record s {
        state = insert "usb_port" Json.null (insert "pid" (Json.num (pos pid)) s.state);
      })
  new-NamesPid pid s = simp lookup-insert

  pub from_process :
      (pid : ℕ) (before : List FilePath)
      → Reaches {A = Unit {0}} Free (NamesBoth (some (Json.num (pos pid)))) Free (
          save_state (("pid", Json.num (pos pid)) ∷ ("usb_port", Json.null) ∷ []) >>= λ _.
          bring_up_or_undo pid before)
  unfolding save_state ◌>>=◌ modify continue
  from_process pid before = record {
    at = λ s t h.
        (Reaches-bind write_dict (λ _. bring_up_or_undo pid before)
            (write_dict-Within (NamesPid (some (Json.num (pos pid))))) (λ r i. tt)
            (λ _. bring_up_or_undo-NamesBoth (some (Json.num (pos pid))) pid before)).at
          _ t (new-NamesPid pid s);
  }

  forgets : Reaches Free NamesNothing Free (save_state stopped_entries)
  unfolding save_state ◌>>=◌ modify continue
  forgets = record {
    at = λ s t h.
        Ends-Within write_dict (write_dict-Within NamesNothing) (λ r i. i) (λ r i. tt) _ t
          (stopped-NamesNothing s);
  }

  pub stop_device-NamesNothing : Reaches Free NamesNothing Free stop_device
  unfolding stop_device
  stop_device-NamesNothing = search (Free-then, forgets) depth 20

  pub attach-NamesBoth :
      (v : Option Json) → Reaches (NamesPid v) (NamesBoth v) Free (act Command.attach)
  unfolding act
  attach-NamesBoth v =
      Reaches-bind _ _ (with_platform-Apart (Pid v) _ (matching_usb_devices-Gentle free))
        (λ s h. tt) (attach_device-NamesBoth v)

  -- The file names this process and no port.
  abbrev pub NamesNoPort : Option Json → Session → Type 0
  NamesNoPort v s = NamesPid v s × (lookup "usb_port" s.state ≡ some Json.null)

  detached-NamesNoPort :
      (v : Option Json) (s : Session)
      → NamesPid v s
      → NamesNoPort v (record s { state = insert "usb_port" Json.null s.state })
  detached-NamesNoPort v s h = (simp (lookup-insert, h), simp lookup-insert)

  forgets_port :
      (v : Option Json)
      → Reaches (NamesPid v) (NamesNoPort v) Free (save_state (("usb_port", Json.null) ∷ []))
  unfolding save_state ◌>>=◌ modify continue
  forgets_port v = record {
    at = λ s t h.
        Ends-Within write_dict (write_dict-Within (NamesNoPort v)) (λ r i. i) (λ r i. tt) _ t
          (detached-NamesNoPort v s h);
  }

  pub detach-NamesNoPort :
      (v : Option Json) → Reaches (NamesPid v) (NamesNoPort v) Free (act Command.detach)
  unfolding act
  detach-NamesNoPort v =
      Reaches-bind _ _ (with_platform-Apart (Pid v) detach (detach-Gentle free)) (λ s h. tt)
        (λ _. forgets_port v)
