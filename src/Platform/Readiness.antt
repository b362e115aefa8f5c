-- ===== src/Platform/Readiness.antt =====
-- What `wait_ready` promises: a status that it returns meets the requirements, and is what the last
-- round of probes saw.
use canokey_usbip.Host.Plain.{free}
use canokey_usbip.Prelude.{
  String, ◌≡◌, ◌*◌, if◌then◌else◌, ◌∙◌, refl, sym, ap, Bool, true, false, not, ◌&&◌, ◌||◌, Option,
  none, some, List, [], ◌∷◌, arith, contains, lookup, is_empty, eq_iff, ◌==◌, Bool-cases, inl, inr,
  ℕ,
}
use canokey_usbip.Host.{History, Env, Exec, Result, ok, pure, raise, gets, continue, ◌>>=◌}
use canokey_usbip.Host.Inversion.{bind-ok}
use canokey_usbip.Host.Polling.{Probe, stop, go_on, Waited, found, expired, poll_for}
use canokey_usbip.Host.Polling.Found.{poll_for-found}
use canokey_usbip.Platform.State.{Platform}
use canokey_usbip.Platform.Ready.{
  Status, Requirements, picked, pick, default_requirements, all_requirements, requirement_status,
  all_ready, probe_status, check_ready, ready_or_timeout, wait_ready,
}
use canokey_usbip.Platform.Reading.{check_ready-Gentle, wait_ready-Gentle, probe_status-Gentle}

-- Where `name` is asked for, the layer is there.
abbrev pub asks : List String → String → Bool → Bool
asks names name layer = not (contains names name) || layer

-- The layers that the requirements ask for are there; with no requirement, all of them.
abbrev pub meets : List String → Status → Bool
meets [] s =
    s.usb && s.ccid_interface && s.hid_interface && s.webusb_interface && s.hidraw && s.pcsc
meets (n ∷ ns) s =
    asks (n ∷ ns) "usb" s.usb
    && asks (n ∷ ns) "ccid" s.ccid_interface
    && asks (n ∷ ns) "hid" (s.hid_interface && s.hidraw)
    && asks (n ∷ ns) "webusb" s.webusb_interface
    && asks (n ∷ ns) "pcsc" (s.pcsc_checked && not (is_empty s.pcsc_readers))

-- How a round ends.
abbrev verdict : Bool → Status → Requirements → Probe (Requirements × Option Status) Status
verdict ready s rs = if ready then stop s else go_on (rs, some s)

abbrev Triple : Type 0 → Type 0
Triple A = Result A × Platform × History

-- The pair that comes first is ready, and so are the others.
picked-ready :
    (n : String) (o : Option Bool) (rest : Exec Platform Requirements) (p : Platform) (t : History)
    (rs : Requirements)
    → (picked n o rest p t).0 ≡ ok rs
    → all_ready rs ≡ true
    → (o ≡ some true)
      × (others : Requirements) × ((rest p t).0 ≡ ok others)
      × (all_ready others ≡ true)
unfolding picked pure raise
picked-ready n none rest p t rs e r = absurd (cc)
picked-ready n (some ready) rest p t rs e r =
    let (others, p', t', ran, same) =
      bind-ok rest (λ others. pure ((n, ready) ∷ others)) p t rs e in
    let out = ap (λ (x : Triple Requirements). x.0) same in
    let shape : rs ≡ (n, ready) ∷ others = cc in
    let both : (ready && all_ready others) ≡ true = rw shape at r in
    (ground arith, others, ap (λ (x : Triple Requirements). x.0) ran, ground arith)

-- A name that is picked from the table has its flag among those that decide.
pick-ready :
    (table : Requirements) (names : List String) (p : Platform) (t : History) (rs : Requirements)
    (name : String)
    → (pick table names p t).0 ≡ ok rs
    → all_ready rs ≡ true
    → contains names name ≡ true
    → lookup name table ≡ some true
unfolding pick
pick-ready table [] p t rs name e r h = absurd (cc)
pick-ready table (n ∷ ns) p t rs name e r h =
    let (head, others, ran, ready) = picked-ready n (lookup n table) (pick table ns) p t rs e r in
    elim (Bool-cases (n == name)) [
      | inl here ↦ rw (← (eq_iff n name).0 here) head
      | inr there ↦ pick-ready table ns p t others name ran ready (rw there at h)
    ]

asks_lem :
    (names : List String) (name : String) (layer : Bool)
    → (contains names name ≡ true → layer ≡ true)
    → asks names name layer ≡ true
asks_lem names name layer k = elim (Bool-cases (contains names name)) [
  | inl h ↦ rw (h, k h)
  | inr h ↦ rw h
]

-- All that decide are ready: the status meets the requirements.
requirement_status-meets :
    (names : List String) (s : Status) (p : Platform) (t : History) (rs : Requirements)
    → (requirement_status names s p t).0 ≡ ok rs
    → all_ready rs ≡ true
    → meets names s ≡ true
unfolding requirement_status default_requirements all_requirements pure
requirement_status-meets [] s p t rs e r = ground arith
requirement_status-meets (n ∷ ns) s p t rs e r =
    let picks = λ (name : String). pick-ready (all_requirements s) (n ∷ ns) p t rs name e r in
    let usb = asks_lem (n ∷ ns) "usb" s.usb (λ h. cc (picks "usb" h)) in
    let ccid = asks_lem (n ∷ ns) "ccid" s.ccid_interface (λ h. cc (picks "ccid" h)) in
    let hid = asks_lem (n ∷ ns) "hid" (s.hid_interface && s.hidraw) (λ h. cc (picks "hid" h)) in
    let webusb = asks_lem (n ∷ ns) "webusb" s.webusb_interface (λ h. cc (picks "webusb" h)) in
    let pcsc =
      asks_lem (n ∷ ns) "pcsc" (s.pcsc_checked && not (is_empty s.pcsc_readers))
        (λ h. cc (picks "pcsc" h)) in
    rw (usb, ccid, hid, webusb, pcsc)

module _ ⦃host : Env⦄ where
  waited-ready :
      (timeout : ℕ) (w : Waited (Requirements × Option Status) Status) (p : Platform) (t : History)
      (s : Status)
      → (ready_or_timeout timeout w p t).0 ≡ ok s
      → (w ≡ found s)
        × ((ready_or_timeout timeout w p t).1 ≡ p)
        × ((ready_or_timeout timeout w p t).2 ≡ t)
  unfolding ready_or_timeout pure raise
  waited-ready timeout (found a) p t s e = (cc, refl, refl)
  waited-ready timeout (expired (rs, last)) p t s e = absurd (cc)

  probe_status-same :
      (p p' : Platform) (t t' : History) (s : Status) → probe_status p t ≡ (ok s, p', t') → p' ≡ p
  probe_status-same p p' t t' s e =
      sym (ap (λ (x : Triple Status). x.1) e)
      ∙ (probe_status-Gentle {D = Unit {0}} free {I = λ q. q ≡ p}).state p t refl

  choice :
      (ready : Bool) (s s₁ : Status) (rs : Requirements)
      → ok (verdict ready s₁ rs) ≡ ok (stop s)
      → (ready ≡ true) × (s₁ ≡ s)
  choice true s s₁ rs e = (refl, cc)
  choice false s s₁ rs e = absurd (cc)

  round-meets :
      (s s₁ : Status) (p p₁ : Platform) (t t₁ : History) (rs : Requirements)
      → probe_status p t ≡ (ok s₁, p₁, t₁)
      → (requirement_status p₁.readiness_requirements s₁ p₁ t₁).0 ≡ ok rs
      → ok (verdict (all_ready rs) s₁ rs) ≡ ok (stop s)
      → (meets p.readiness_requirements s ≡ true)
        × (u : History) × (probe_status p t ≡ (ok s, p, u))
  round-meets s s₁ p p₁ t t₁ rs ran decided e =
      let (ready, same) = choice (all_ready rs) s s₁ rs e in
      let kept = probe_status-same p p₁ t t₁ s₁ ran in
      let m = requirement_status-meets p₁.readiness_requirements s₁ p₁ t₁ rs decided ready in
      (rw (kept, same) at m, t₁, rw (kept, same) at ran)

  -- A round that stops has seen a status that meets the requirements.
  check_ready-meets :
      (last : Requirements × Option Status) (p : Platform) (t : History) (s : Status)
      → (check_ready last p t).0 ≡ ok (stop s)
      → (meets p.readiness_requirements s ≡ true)
        × (u : History) × (probe_status p t ≡ (ok s, p, u))
  unfolding check_ready gets ◌>>=◌ continue pure
  check_ready-meets last p t s e =
      let (s₁, p₁, t₁, ran, same) = bind-ok probe_status _ p t (stop s) e in
      let kept = probe_status-same p p₁ t t₁ s₁ ran in
      let (rs, p₂, t₂, ran', same') =
        bind-ok (requirement_status p₁.readiness_requirements s₁)
          (λ rs. pure (verdict (all_ready rs) s₁ rs)) p₁ t₁ (stop s)
          (sym (ap (λ (x : Triple (Probe (Requirements × Option Status) Status)). x.0) same) ∙ e) in
      let out = ap (λ (x : Triple (Probe (Requirements × Option Status) Status)). x.0) same in
      let out' = ap (λ (x : Triple (Probe (Requirements × Option Status) Status)). x.0) same' in
      round-meets s s₁ p p₁ t t₁ rs ran (ap (λ (x : Triple Requirements). x.0) ran')
        (sym out' ∙ sym out ∙ e)

  for_same :
      (p q : Platform) (u u' : History) (s : Status)
      → q ≡ p
      → meets q.readiness_requirements s ≡ true
      → probe_status q u ≡ (ok s, q, u')
      → (meets p.readiness_requirements s ≡ true) × (probe_status p u ≡ (ok s, p, u'))
  for_same p q u u' s same met seen = (rw same at met, rw same at seen)

  -- A status that `wait_ready` returns meets the platform's requirements, and is what one round of
  -- probes has seen; the platform's fields are as before.
  pub wait_ready-meets :
      (p : Platform) (t : History) (s : Status)
      → (wait_ready p t).0 ≡ ok s
      → (meets p.readiness_requirements s ≡ true)
        × ((wait_ready p t).1 ≡ p)
        × (u : History) × (u' : History) × (probe_status p u ≡ (ok s, p, u'))
  unfolding wait_ready gets ◌>>=◌ continue
  wait_ready-meets p t s e =
      let (w, q, u, ran, same) =
        bind-ok (poll_for (p.timeout * 1000) 250 ([], none) check_ready)
          (ready_or_timeout p.timeout) p t s e in
      let out = ap (λ (x : Triple Status). x.0) same in
      let (which, where_p, where_t) = waited-ready p.timeout w q u s (sym out ∙ e) in
      let probes =
        poll_for-found check_ready 250 (check_ready-Gentle {D = Unit {0}} free {I = λ r. r ≡ p}) s
          (p.timeout * 1000) ([], none) p t refl
          (ap (λ (x : Triple (Waited (Requirements × Option Status) Status)). x.0) ran
            ∙ ap ok which) in
      let (met, u', seen) =
        check_ready-meets probes.left probes.state probes.history s
          (ap (λ (x : Triple (Probe (Requirements × Option Status) Status)). x.0) probes.stopped) in
      let unchanged = (wait_ready-Gentle {D = Unit {0}} free {I = λ r. r ≡ p}).state p t refl in
      let (met', seen') = for_same p probes.state probes.history u' s probes.inside met seen in
      (met', unchanged, probes.history, u', seen')
