-- ===== src/Control/Undo.antt =====
-- What `start` leaves in the state file: the port of the attachment, or nothing to stop and nothing to
-- detach.
use canokey_usbip.Prelude.{
  ◌≢◌, ◌≡◌, ℕ, Bool, true, false, some, List, [], ◌∷◌, lookup, insert, lookup-insert,
}
use canokey_usbip.Host.{
  FilePath, History, Env, Exc, Exec, Result, ok, raised, diverged, Json, json, gets, modify, pure,
  raise, catch, recover, continue, ◌>>=◌,
}
use canokey_usbip.Host.Calls
use canokey_usbip.Host.Within.{Within, any_error}
use canokey_usbip.Host.Plain.{plain_rules, IsPlain, IsHarmless}
use canokey_usbip.Host.Reaches.{
  Ends, Reaches, Reaches-then, Reaches-quiet, Reaches-catch, Ends-Within, Ends-raise,
}
use canokey_usbip.Platform.{detach}
use canokey_usbip.Control.State.{Session, save_state}
use canokey_usbip.Control.Start.{
  with_platform, port_json, stopped_entries, attach_device, bring_up, detach_quietly, undo,
  bring_up_or_undo,
}
use canokey_usbip.Control.Quiet.{CanSignal, stop_pid-ne-raised}

-- The file names the port that the platform has.
abbrev pub NamesPort : Session → Type 0
NamesPort s = lookup "usb_port" s.state ≡ some (port_json s.platform.usb_port)

-- The file names no process and no port.
abbrev pub NamesNothing : Session → Type 0
NamesNothing s =
    (lookup "pid" s.state ≡ some Json.null) × (lookup "usb_port" s.state ≡ some Json.null)

abbrev AnySession : Session → Type 0
AnySession s = Unit {0}

pub stopped-NamesNothing :
    (s : Session)
    → NamesNothing
        (record s { state = insert "usb_port" Json.null (insert "pid" Json.null s.state) })
stopped-NamesNothing s = (simp lookup-insert, simp lookup-insert)

catch-quiet :
    {S A : Type 0} (a : A) (r : Result A) (s : S) (t : History) (e : Exc)
    → (recover r (λ x. pure a) s t).0 ≢ raised e
unfolding recover pure
catch-quiet a (ok b) s t e h = cc
catch-quiet a (raised x) s t e h = cc
catch-quiet a diverged s t e h = cc

module _ ⦃host : Env⦄ where
  detach_quietly-ne-raised :
      (owns : Bool) (s : Session) (t : History) (e : Exc) → (detach_quietly owns s t).0 ≢ raised e
  unfolding detach_quietly catch pure
  detach_quietly-ne-raised true s t e h =
      let (r, s', t') = with_platform detach s t in catch-quiet tt r s' t' e h
  detach_quietly-ne-raised false s t e h = cc

  gets-ne-raised :
      {A : Type 0} (f : Session → A) (s : Session) (t : History) (e : Exc)
      → (gets f s t).0 ≢ raised e
  unfolding gets
  gets-ne-raised f s t e h = cc

  -- What `save_state` does when the dict is updated.
  abbrev pub write_dict : Exec Session (Unit {0})
  write_dict = do
    path ← gets (λ (s : Session). s.state_path)
    state ← gets (λ (s : Session). s.state)
    Calls.write_text path (json state)

  -- The write keeps what the dict holds, whether it works or not.
  pub write_dict-Within : (I : Session → Type 0) → Within (Unit {0}) I IsHarmless IsPlain write_dict
  unfolding Calls.write_text
  write_dict-Within I = search plain_rules depth 10

  forget_and_raise :
      (e : Exc)
      → Reaches {A = Unit {0}} AnySession NamesPort NamesNothing
          (save_state stopped_entries >>= λ _. raise e)
  unfolding save_state ◌>>=◌ modify continue
  forget_and_raise e = record {
    at = λ s t h.
        Ends-raise (Unit {0}) NamesPort write_dict e (write_dict-Within NamesNothing) (λ r i. i) _ t
          (stopped-NamesNothing s);
  }

  undo-NamesNothing :
      (pid : ℕ) (e : Exc)
      → CanSignal host pid
      → Reaches AnySession NamesPort NamesNothing (undo pid e)
  unfolding undo
  undo-NamesNothing pid e can =
      Reaches-quiet _ _ (gets-ne-raised (λ s. s.platform.owns_attachment)) λ owns.
        Reaches-quiet _ _ (detach_quietly-ne-raised owns)
          λ _. Reaches-quiet _ _ (stop_pid-ne-raised pid can) (λ _. forget_and_raise e)

  pub named-NamesPort :
      (s : Session)
      → NamesPort (record s { state = insert "usb_port" (port_json s.platform.usb_port) s.state })
  named-NamesPort s = simp lookup-insert

  name_port : Reaches {A = Unit {0}} AnySession NamesPort AnySession (
      gets (λ (s : Session). s.platform.usb_port) >>= λ port.
      save_state (("usb_port", port_json port) ∷ []))
  unfolding save_state ◌>>=◌ modify continue gets
  name_port = record {
    at = λ s t h.
        Ends-Within write_dict (write_dict-Within NamesPort) (λ r i. i) (λ r i. tt) _ t
          (named-NamesPort s);
  }

  attach_device-NamesPort :
      (before : List FilePath) → Reaches AnySession NamesPort AnySession (attach_device before)
  unfolding attach_device
  attach_device-NamesPort before =
      Reaches-then _ _ (λ s. tt) λ _. Reaches-then _ _ (λ s. tt) λ _. name_port

  bring_up-NamesPort :
      (pid : ℕ) (before : List FilePath)
      → Reaches AnySession NamesPort AnySession (bring_up pid before)
  unfolding bring_up
  bring_up-NamesPort pid before =
      Reaches-then _ _ (λ s. tt)
        λ _.
          Reaches-then _ _ (λ s. tt)
            λ _.
              Reaches-then _ _ (λ s. tt)
                λ _.
                  Reaches-then _ _ (λ s. tt)
                    λ _. Reaches-then _ _ (λ s. tt) λ _. attach_device-NamesPort before

  -- The `try` statement of `start`, where the host lets the program signal its own server: if it
  -- returns, the state file's dict names the port of the attachment; if it raises, whatever failed,
  -- the dict names no process and no port.
  pub bring_up_or_undo-Ends :
      (pid : ℕ) (before : List FilePath) (s : Session) (t : History)
      → CanSignal host pid
      → Ends NamesPort NamesNothing (bring_up_or_undo pid before s t)
  unfolding bring_up_or_undo
  bring_up_or_undo-Ends pid before s t can =
      (Reaches-catch (Unit {0}) (λ e. Unit {0}) (bring_up pid before) (undo pid)
          (λ s' t' h. any_error (bring_up pid before s' t').0) (bring_up-NamesPort pid before)
          (λ e x. undo-NamesNothing pid e can)).at
        s t tt
