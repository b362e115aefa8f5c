-- ===== src/Control/Removal.antt =====
-- `wait_reader_removed` returns only when PC/SC has listed its readers without the one that was detached.
use canokey_usbip.Prelude.{
  ◌≡◌, refl, sym, ap, ◌∙◌, String, Bool, true, false, Option, none, some, List, contains,
  if◌then◌else◌, arith,
}
use canokey_usbip.Host.{History, Env, Result, ok, pure, raise}
use canokey_usbip.Host.Plain.{plain_rules}
use canokey_usbip.Host.Inversion.{bind-ok}
use canokey_usbip.Host.Polling.{Probe, stop, go_on, Waited, found, expired, poll_for}
use canokey_usbip.Host.Polling.Found.{poll_for-found}
use canokey_usbip.Platform.{pcsc_readers}
use canokey_usbip.Platform.Gentle.{Gentle, pcsc_readers-Gentle}
use canokey_usbip.Control.Stop.{is_removed, check_removed, removed_or_timeout, wait_reader_removed}

abbrev Triple : Type 0 → Type 0 → Type 0
Triple S A = Result A × S × History

removed_list :
    (reader : String) (o : Option (List String))
    → is_removed reader o ≡ true
    → (readers : List String) × (o ≡ some readers) × (contains readers reader ≡ false)
unfolding is_removed
removed_list reader none h = absurd (cc)
removed_list reader (some readers) h = (readers, refl, ground arith)

-- How a round ends.
abbrev verdict : Bool → Probe (Unit {0}) (Unit {0})
verdict gone = if gone then stop tt else go_on tt

choice : (b : Bool) → ok (verdict b) ≡ ok (stop tt) → b ≡ true
choice true e = refl
choice false e = absurd (cc)

module _ ⦃host : Env⦄ {S : Type 0} (reader : String) where
  check_removed-Gentle :
      (I : S → Type 0) (u : Unit {0}) → Gentle (Unit {0}) I (check_removed reader u)
  unfolding check_removed
  check_removed-Gentle I u = search (plain_rules, pcsc_readers-Gentle) depth 10

  waited-removed :
      (w : Waited (Unit {0}) (Unit {0})) (s : S) (t : History)
      → (removed_or_timeout reader w s t).0 ≡ ok tt
      → w ≡ found tt
  unfolding removed_or_timeout pure raise
  waited-removed (found tt) s t e = refl
  waited-removed (expired _) s t e = absurd (cc)

  check_removed-lists :
      (u : Unit {0}) (s : S) (t : History)
      → (check_removed reader u s t).0 ≡ ok (stop tt)
      → (readers : List String) × (s' : S) × (t' : History) × (pcsc_readers s t
          ≡ (ok (some readers), s', t'))
        × (contains readers reader ≡ false)
  unfolding check_removed pure
  check_removed-lists u s t e =
      let (o, s', t', ran, same) =
        bind-ok pcsc_readers (λ o. pure (verdict (is_removed reader o))) s t (stop tt) e in
      let gone =
        choice (is_removed reader o)
          (sym (ap (λ (x : Triple S (Probe (Unit {0}) (Unit {0}))). x.0) same) ∙ e) in
      let (readers, is, without) = removed_list reader o gone in
      (readers, s', t', ran ∙ ap (λ (p : Option (List String)). (ok p, s', t')) is, without)

  for_same :
      (s q : S) (u : History) (y : Triple S (Option (List String)))
      → q ≡ s
      → pcsc_readers q u ≡ y
      → pcsc_readers s u ≡ y
  for_same s q u y same e = rw same at e

  -- If `wait_reader_removed` returns, PC/SC has answered a query with a list of readers that does not
  -- have the reader: an unavailable PC/SC or a failed query does not count as its removal.
  pub wait_reader_removed-lists :
      (s : S) (t : History)
      → (wait_reader_removed reader s t).0 ≡ ok tt
      → (readers : List String) × (u : History) × (s' : S) × (u' : History) × (pcsc_readers s u
          ≡ (ok (some readers), s', u'))
        × (contains readers reader ≡ false)
  unfolding wait_reader_removed
  wait_reader_removed-lists s t e =
      let (w, q, u, ran, same) =
        bind-ok (poll_for 10000 100 tt (check_removed reader)) (removed_or_timeout reader) s t tt
          e in
      let which = waited-removed w q u (sym (ap (λ (x : Triple S (Unit {0})). x.0) same) ∙ e) in
      let probes =
        poll_for-found (check_removed reader) 100 (check_removed-Gentle (λ r. r ≡ s)) tt 10000 tt s
          t refl (ap (λ (x : Triple S (Waited (Unit {0}) (Unit {0}))). x.0) ran ∙ ap ok which) in
      let (readers, s', u', seen, without) =
        check_removed-lists probes.left probes.state probes.history
          (ap (λ (x : Triple S (Probe (Unit {0}) (Unit {0}))). x.0) probes.stopped) in
      (
        readers,
        probes.history,
        s',
        u',
        for_same s probes.state probes.history _ probes.inside seen,
        without,
      )
