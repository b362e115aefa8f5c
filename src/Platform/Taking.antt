-- ===== src/Platform/Taking.antt =====
-- What `attach` promises: the attachment is the platform's, of a device that was not there before.
use canokey_usbip.Prelude.{
  ◌≡◌, refl, sym, ap, ◌∙◌, ◌*◌, ℕ, String, true, false, Option, none, some, List, [], ◌∷◌, contains,
  difference, inl, inr, arith, Bool-cases, eq_iff,
}
use canokey_usbip.Host.{
  FilePath, History, Env, Exec, Result, ok, gets, modify, pure, raise, continue, ◌>>=◌, ◌>>◌,
}
use canokey_usbip.Host.Within.{Within, Within-modify}
use canokey_usbip.Host.Plain.{free, IsPlain, IsHarmless, plain_rules}
use canokey_usbip.Host.Inversion.{bind-ok}
use canokey_usbip.Host.Polling.{Probe, stop, Waited, found, expired, poll_for}
use canokey_usbip.Host.Polling.Found.{poll_for-found}
use canokey_usbip.Text.Match.{path_lt}
use canokey_usbip.Platform.State.{Platform}
use canokey_usbip.Platform.Usb.{matching_usb_devices}
use canokey_usbip.Platform.Ports.{find_usbip_port}
use canokey_usbip.Platform.Attachment.{
  least, find_port_again, take_device, look_for_device, attached, await_device, attach,
}
use canokey_usbip.Platform.Reading.{matching_usb_devices-Gentle, find_usbip_port-Gentle}
use canokey_usbip.Host.Reaches.{Ends, Reaches, Reaches-then, Reaches-bind, Ends-ok}

-- The least path is one of them.
least_cases : (x : String) (ys : List String) → contains (x ∷ ys) (least x ys) ≡ true
unfolding least
least_cases x [] = ground (arith, eq_iff x x)
least_cases x (y ∷ ys) = elim (Bool-cases (path_lt y x)) [
  | inl below ↦ rw below (ground (arith, least_cases y ys))
  | inr above ↦ rw above (ground (arith, least_cases x ys))
]

difference-new :
    (xs before : List String) (d : String)
    → contains (difference xs before) d ≡ true
    → contains before d ≡ false
difference-new [] before d h = absurd (cc)
difference-new (x ∷ xs) before d h = elim (Bool-cases (contains before x)) [
  | inl old ↦ difference-new xs before d (rw old at h)
  | inr new ↦ ground (arith, difference-new xs before d, eq_iff x d)
]

-- The attachment is owned, and its device is none of those before.
abbrev pub Holds : List FilePath → Platform → Type 0
Holds before p =
    (p.owns_attachment ≡ true)
    × (d : FilePath) × (p.device_path ≡ some d)
    × (contains before d ≡ false)

abbrev Owns : Platform → Type 0
Owns p = p.owns_attachment ≡ true

Holds-same : (before : List FilePath) (p q : Platform) → p ≡ q → Holds before p → Holds before q
Holds-same before p q e (owned, d, here, new) = (
  sym (ap (λ (r : Platform). r.owns_attachment) e) ∙ owned,
  d,
  sym (ap (λ (r : Platform). r.device_path) e) ∙ here,
  new,
)

-- The device that `take_device` takes is the one that the platform has, and the attachment stays owned.
abbrev Takes : FilePath → Platform → Type 0
Takes d p = (p.owns_attachment ≡ true) × (p.device_path ≡ some d)

abbrev Triple : Type 0 → Type 0
Triple A = Result A × Platform × History

Ends-of_ok :
    (Q : Platform → Type 0) (x : Triple (Unit {0}))
    → (x.0 ≡ ok tt → Q x.1)
    → Ends Q (λ s. Unit {0}) x
Ends-of_ok Q (ok tt, p, t) k = k refl
Ends-of_ok Q (Result.raised e, p, t) k = tt
Ends-of_ok Q (Result.diverged, p, t) k = tt

module _ ⦃host : Env⦄ where
  find_port_again-Within :
      (I : Platform → Type 0)
      → ((q : Platform) (port : Option String) → I q → I (record q { usb_port = port }))
      → (port : Option String) → Within (Unit {0}) I IsHarmless IsPlain (find_port_again port)
  unfolding find_port_again
  find_port_again-Within I k none = search (plain_rules, find_usbip_port-Gentle free, k) depth 10
  find_port_again-Within I k (some port) = search plain_rules

  abbrev take_rest : Exec Platform (Probe (Unit {0}) (Unit {0}))
  take_rest = do port ← gets (λ (p : Platform). p.usb_port); find_port_again port; pure (stop tt)

  take_rest-Within : (d : FilePath) → Within (Unit {0}) (Takes d) IsHarmless IsPlain take_rest
  take_rest-Within d =
      search (plain_rules, find_port_again-Within (Takes d) (λ q port h. h)) depth 10

  take_device-Holds :
      (ds devices before : List FilePath) (p p' : Platform) (t t' : History)
      → ds ≡ difference devices before
      → Owns p
      → take_device ds p t ≡ (ok (stop tt), p', t')
      → Holds before p'
  unfolding take_device ◌>>=◌ modify continue pure
  take_device-Holds [] devices before p p' t t' e i ran = absurd (cc)
  take_device-Holds (d ∷ ds) devices before p p' t t' e i ran =
      let q : Platform = record p { device_path = some (least d ds) } in
      let (owned, here) = (take_rest-Within (least d ds)).state q t (i, refl) in
      let is = ap (λ (x : Triple (Probe (Unit {0}) (Unit {0}))). x.1) ran in
      let new = sym (ap (λ (l : List String). contains l (least d ds)) e) ∙ least_cases d ds in
      (
        sym (ap (λ (r : Platform). r.owns_attachment) is) ∙ owned,
        least d ds,
        sym (ap (λ (r : Platform). r.device_path) is) ∙ here,
        difference-new devices before (least d ds) new,
      )

  take_device-Owns :
      (ds : List FilePath) → Within (Unit {0}) Owns IsHarmless IsPlain (take_device ds)
  unfolding take_device
  take_device-Owns [] = search plain_rules
  take_device-Owns (d ∷ ds) =
      search (plain_rules, find_port_again-Within Owns (λ q port h. h)) depth 20

  look_for_device-Owns :
      (before : List FilePath) (u : Unit {0})
      → Within (Unit {0}) Owns IsHarmless IsPlain (look_for_device before u)
  unfolding look_for_device
  look_for_device-Owns before u =
      search (plain_rules, matching_usb_devices-Gentle free, take_device-Owns) depth 10

  look_for_device-Holds :
      (before : List FilePath) (u : Unit {0}) (p p' : Platform) (t t' : History)
      → Owns p
      → look_for_device before u p t ≡ (ok (stop tt), p', t')
      → Holds before p'
  unfolding look_for_device
  look_for_device-Holds before u p p' t t' i e =
      let (devices, q, t₁, ran, same) =
        bind-ok matching_usb_devices (λ devices. take_device (difference devices before)) p t
          (stop tt) (ap (λ (x : Triple (Probe (Unit {0}) (Unit {0}))). x.0) e) in
      let kept = (matching_usb_devices-Gentle {D = Unit {0}} free {I = Owns}).state p t i in
      take_device-Holds (difference devices before) devices before q p' t₁ t' refl
        (sym (ap (λ (x : Triple (List FilePath)). x.1.owns_attachment) ran) ∙ kept) (sym same ∙ e)

  waited-found :
      (timeout : ℕ) (w : Waited (Unit {0}) (Unit {0})) (p : Platform) (t : History)
      → (attached timeout w p t).0 ≡ ok tt
      → (w ≡ found tt) × ((attached timeout w p t).1 ≡ p)
  unfolding attached pure raise
  waited-found timeout (found tt) p t e = (refl, refl)
  waited-found timeout (expired _) p t e = absurd (cc)

  await_device-Holds :
      (before : List FilePath) (p : Platform) (t : History)
      → Owns p
      → (await_device before p t).0 ≡ ok tt
      → Holds before (await_device before p t).1
  unfolding await_device gets ◌>>=◌ continue
  await_device-Holds before p t i e =
      let loop = poll_for (p.timeout * 1000) 250 tt (look_for_device before) in
      let (w, q, u, ran, same) = bind-ok loop (attached p.timeout) p t tt e in
      let (which, stays) =
        waited-found p.timeout w q u (sym (ap (λ (x : Triple (Unit {0})). x.0) same) ∙ e) in
      let probes =
        poll_for-found (look_for_device before) 250 (look_for_device-Owns before) tt
          (p.timeout * 1000) tt p t i
          (ap (λ (x : Triple (Waited (Unit {0}) (Unit {0}))). x.0) ran ∙ ap ok which) in
      let held =
        look_for_device-Holds before probes.left probes.state _ probes.history _ probes.inside
          probes.stopped in
      let last =
        ap (λ (x : Triple (Waited (Unit {0}) (Unit {0}))). x.1) ran
        ∙ sym stays
        ∙ sym (ap (λ (x : Triple (Unit {0})). x.1) same) in
      Holds-same before _ _ last held

  await_device-Reaches :
      (before : List FilePath) → Reaches Owns (Holds before) (λ p. Unit {0}) (await_device before)
  await_device-Reaches before = record {
    at = λ p t i. Ends-of_ok (Holds before) _ (await_device-Holds before p t i);
  }

  with_port :
      (before : List FilePath) (port : Option String)
      → Reaches {A = Unit {0}} Owns
          (Holds before)
          (λ p. Unit {0})
          (modify (λ (p : Platform). record p { usb_port = port }) >>= λ _. await_device before)
  with_port before port =
      Reaches-bind _ _
        (Within-modify {D = Unit {0}} {P = IsHarmless} {E = IsPlain}
          (λ (p : Platform). record p { usb_port = port }) (λ p h. h))
        (λ p h. tt) (λ _. await_device-Reaches before)

  found_port :
      (before : List FilePath)
      → Reaches {A = Unit {0}} Owns
          (Holds before)
          (λ p. Unit {0})
          (find_usbip_port >>= λ port.
            modify (λ (p : Platform). record p { usb_port = port }) >>= λ _. await_device before)
  found_port before =
      Reaches-bind find_usbip_port _ (find_usbip_port-Gentle {D = Unit {0}} free {I = Owns})
        (λ p h. tt) (with_port before)

  -- What follows the attach command.
  owned_from_here :
      (before : List FilePath)
      → Reaches {A = Unit {0}}
          (λ p. Unit {0})
          (Holds before)
          (λ p. Unit {0})
          (modify (λ (p : Platform). record p { owns_attachment = true }) >>= λ _.
            find_usbip_port >>= λ port.
            modify (λ (p : Platform). record p { usb_port = port }) >>= λ _. await_device before)
  unfolding ◌>>=◌ modify continue
  owned_from_here before = record {
    at = λ p t h. (found_port before).at (record p { owns_attachment = true }) t refl;
  }

  -- If `attach` returns, the platform owns the attachment, and has the path of a device that was not
  -- there before.
  pub attach-Holds :
      (before : List FilePath) (p : Platform) (t : History)
      → (attach before p t).0 ≡ ok tt
      → Holds before (attach before p t).1
  unfolding attach
  attach-Holds before p t e =
      let reaches : Reaches (λ p. Unit {0}) (Holds before) (λ p. Unit {0}) (attach before) =
        Reaches-then _ _ (λ s. tt)
          λ _.
            Reaches-then _ _ (λ s. tt)
              λ _. Reaches-then _ _ (λ s. tt) λ _. owned_from_here before in
      Ends-ok (Holds before) (attach before p t) tt e (reaches.at p t tt)
