-- ===== src/Catalog/Selection.antt =====
-- What a profile expands to: the first occurrences of the ids that its requests stand for.
use canokey_usbip.Prelude.{
  String, ◌≡◌, ◌∙◌, true, false, some, List, [], map, arith, contains, all, lookup, Bool-cases, inl,
  inr, fresh, HasNoRepeats, contains-fresh, fresh-HasNoRepeats,
}
use canokey_usbip.Host.{value_error, ok, raised}
use canokey_usbip.Catalog.Defs.{Firmware, Catalog, Profiles, ids, nothing_selected, list_firmwares}
use canokey_usbip.Catalog.Loop.{
  entry_with, wanted, known, unknown_firmware, add_all-known, add_all-unknown,
  add_requests-eq-add_all,
}

-- The result of a known profile: of each id that the profile stands for, where it first stands, the
-- entry.
pub list_firmwares-entries :
    (catalog : Catalog) (profiles : Profiles) (profile : String) (requests : List String)
    → lookup profile profiles ≡ some requests
    → all (known catalog) (wanted catalog requests) ≡ true
    → (r : List Firmware) × (list_firmwares catalog profiles (some profile) ≡ ok r)
      × (ids r ≡ fresh [] (wanted catalog requests))
      × (map some r ≡ map (entry_with catalog.firmwares) (fresh [] (wanted catalog requests)))
unfolding list_firmwares nothing_selected
list_firmwares-entries catalog profiles profile requests listed fine =
    let (s, runs, shape, entries) =
      add_all-known catalog profile (wanted catalog requests) nothing_selected fine in
    (s.selected, rw (listed, add_requests-eq-add_all, runs), shape, entries)

-- The result of a known profile, as ids: each id that the profile stands for, once, where it first
-- stands.
pub list_firmwares-fresh :
    (catalog : Catalog) (profiles : Profiles) (profile : String) (requests : List String)
    → lookup profile profiles ≡ some requests
    → all (known catalog) (wanted catalog requests) ≡ true
    → (r : List Firmware) × (list_firmwares catalog profiles (some profile) ≡ ok r)
      × (ids r ≡ fresh [] (wanted catalog requests))
list_firmwares-fresh catalog profiles profile requests listed fine =
    let (r, runs, shape, entries) =
      list_firmwares-entries catalog profiles profile requests listed fine in
    (r, runs, shape)

-- A listed profile that stands for an id with no entry ends with a ValueError that names the
-- profile and such an id.
pub list_firmwares-unknown :
    (catalog : Catalog) (profiles : Profiles) (profile : String) (requests : List String)
    → lookup profile profiles ≡ some requests
    → all (known catalog) (wanted catalog requests) ≡ false
    → (k : String) × (contains (wanted catalog requests) k ≡ true)
      × (known catalog k ≡ false)
      × (list_firmwares catalog profiles (some profile)
          ≡ raised (value_error (unknown_firmware profile k)))
unfolding list_firmwares
list_firmwares-unknown catalog profiles profile requests listed bad =
    let (k, among, missing, fails) =
      add_all-unknown catalog profile (wanted catalog requests) nothing_selected bad in
    (k, among, missing, rw (listed, add_requests-eq-add_all, fails))

-- A successful expansion lists no id twice, and lists exactly the ids that the profile stands for.
pub list_firmwares-HasNoRepeats :
    (catalog : Catalog) (profiles : Profiles) (profile : String) (requests : List String)
    (r : List Firmware)
    → lookup profile profiles ≡ some requests
    → list_firmwares catalog profiles (some profile) ≡ ok r
    → HasNoRepeats (ids r)
      × ((k : String) → contains (ids r) k ≡ contains (wanted catalog requests) k)
list_firmwares-HasNoRepeats catalog profiles profile requests r listed runs =
    elim (Bool-cases (all (known catalog) (wanted catalog requests))) [
      | inl fine ↦
          let (r', runs', shape) =
            list_firmwares-fresh catalog profiles profile requests listed fine in
          let same : r ≡ r' = cc in
          (
            rw (same, shape) (fresh-HasNoRepeats [] (wanted catalog requests)),
            λ k. rw (same, shape) (contains-fresh [] (wanted catalog requests) k ∙ ground arith),
          )
      | inr bad ↦
          let (k, _, _, fails) =
            list_firmwares-unknown catalog profiles profile requests listed bad in
          absurd (cc)
    ]
