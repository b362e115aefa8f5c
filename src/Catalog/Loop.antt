-- ===== src/Catalog/Loop.antt =====
-- The loops of `list_firmwares`, as one loop over the ids that the requests stand for.
use mathlib.Core.Path.{fun_ext, sym}
use mathlib.Core.List.{append_assoc, append-nil, map-append}
use canokey_usbip.Prelude.{
  String, ◌<>◌, ◌≡◌, refl, ◌∙◌, Bool, true, false, ◌||◌, Option, none, ◌==◌, if◌then◌else◌, some,
  List, [], ◌∷◌, ◌++◌, map, arith, contains, all, is_some, lookup, update, insert, lookup-insert,
  eq_iff, fresh, Bool-cases, Option-cases, inl, inr,
}
use canokey_usbip.Host.{Result, value_error, ok, raised}
use canokey_usbip.Catalog.Defs.{
  Firmware, Catalog, ids, by_id, Selection, expand, and_then, add, add_all, add_requests, add_found,
}

-- The ids that a profile's requests stand for, with repetitions.
abbrev pub wanted : Catalog → List String → List String
wanted catalog [] = []
wanted catalog (r ∷ rs) = expand catalog r ++ wanted catalog rs

abbrev pub known : Catalog → String → Bool
known catalog k = contains (ids catalog.firmwares) k

abbrev or_else : {A : Type 0} → Option A → Option A → Option A
or_else none o = o
or_else (some a) o = some a

abbrev entry_of : Firmware → String × Firmware
entry_of e = (e.id, e)

-- The entry with an id: the last one, where several have it.
pub entry_with : List Firmware → String → Option Firmware
entry_with [] k = none
entry_with (e ∷ es) k = or_else (entry_with es k) (if e.id == k then some e else none)

entry_with-update :
    (k : String) (es : List Firmware) (d : List (String × Firmware))
    → lookup k (update d (map entry_of es)) ≡ or_else (entry_with es k) (lookup k d)
unfolding entry_with
entry_with-update k [] d = refl
entry_with-update k (e ∷ es) d =
    entry_with-update k es (insert e.id e d) ∙ ground (arith, lookup-insert e.id k e d)

entry_with-by_id :
    (catalog : Catalog) (k : String)
    → lookup k (by_id catalog.firmwares) ≡ entry_with catalog.firmwares k
unfolding by_id
entry_with-by_id catalog k = entry_with-update k catalog.firmwares [] ∙ ground arith

lookup-update :
    (k : String) (es : List Firmware) (d : List (String × Firmware))
    → is_some (lookup k (update d (map entry_of es)))
      ≡ (contains (ids es) k || is_some (lookup k d))
lookup-update k [] d = refl
lookup-update k (e ∷ es) d =
    lookup-update k es (insert e.id e d) ∙ ground (arith, lookup-insert e.id k e d, eq_iff e.id k)

is_some-by_id :
    (catalog : Catalog) (k : String)
    → is_some (lookup k (by_id catalog.firmwares)) ≡ known catalog k
unfolding by_id
is_some-by_id catalog k = lookup-update k catalog.firmwares [] ∙ ground arith

id-update :
    (k : String) (e : Firmware) (es : List Firmware) (d : List (String × Firmware))
    → ((f : Firmware) → lookup k d ≡ some f → f.id ≡ k)
    → lookup k (update d (map entry_of es)) ≡ some e
    → e.id ≡ k
id-update k e [] d inv h = inv e h
id-update k e (g ∷ es) d inv h =
    id-update k e es (insert g.id g d)
      (λ f p. ground (arith, lookup-insert g.id k g d, inv f, eq_iff g.id k)) h

id-by_id :
    (catalog : Catalog) (k : String) (e : Firmware)
    → lookup k (by_id catalog.firmwares) ≡ some e
    → e.id ≡ k
unfolding by_id
id-by_id catalog k e = id-update k e catalog.firmwares [] (λ f p. cc)

and_then_assoc :
    {A B C : Type 0} (r : Result A) (f : A → Result B) (g : B → Result C)
    → and_then (and_then r f) g ≡ and_then r (λ a. and_then (f a) g)
and_then_assoc (ok a) f g = refl
and_then_assoc (raised e) f g = refl
and_then_assoc Result.diverged f g = refl

abbrev pub unknown_firmware : String → String → String
unknown_firmware profile k = "profile " <> (profile <> (" references unknown firmware: " <> k))

module _ (catalog : Catalog) (profile : String) where
  -- With every id known, a loop over ids adds the fresh ones, in order.
  abbrev pub Adds : List String → Selection → Type 0
  Adds ks s =
      (s' : Selection) × (add_all catalog profile ks s ≡ ok s')
      × (ids s'.selected ≡ ids s.selected ++ fresh s.seen ks)
      × (map some s'.selected
          ≡ map some s.selected ++ map (entry_with catalog.firmwares) (fresh s.seen ks))

  add-known :
      (k : String) (s : Selection)
      → known catalog k ≡ true
      → (e : Firmware) × (e.id ≡ k)
        × (entry_with catalog.firmwares k ≡ some e)
        × (add catalog profile k s ≡ add_found profile k (some e) s)
  unfolding add
  add-known k s h = elim (Option-cases (lookup k (by_id catalog.firmwares))) [
    | inl absent ↦ absurd (ground (arith, is_some-by_id catalog k))
    | inr (e, found) ↦
        (e, id-by_id catalog k e found, sym (entry_with-by_id catalog k) ∙ found, rw found)
  ]

  add-unknown :
      (k : String) (s : Selection)
      → known catalog k ≡ false
      → add catalog profile k s ≡ raised (value_error (unknown_firmware profile k))
  unfolding add
  add-unknown k s h = elim (Option-cases (lookup k (by_id catalog.firmwares))) [
    | inl absent ↦ rw absent
    | inr (e, found) ↦ absurd (ground (arith, is_some-by_id catalog k))
  ]

  pub add_all-known : (ks : List String) (s : Selection) → all (known catalog) ks ≡ true → Adds ks s
  unfolding add_all add_found
  add_all-known [] s h = (s, refl, rw append-nil refl, rw append-nil refl)
  add_all-known (k ∷ ks) s h =
      let (e, named, entry, step) = add-known k s (ground arith) in
      elim (Bool-cases (contains s.seen k)) [
        | inl old ↦
            let (s', runs, shape, entries) = add_all-known ks s (ground arith) in
            (s', rw step (rw old runs), rw old shape, rw old entries)
        | inr new ↦
            let s₁ : Selection = record { selected = s.selected ++ (e ∷ []); seen = k ∷ s.seen } in
            let (s', runs, shape, entries) = add_all-known ks s₁ (ground arith) in
            (
              s',
              rw step (rw new runs),
              rw new (shape ∙ rw (map-append, append_assoc, named)),
              rw new (entries ∙ rw (map-append, append_assoc, entry)),
            )
      ]

  add-total :
      (k : String) (s : Selection)
      → known catalog k ≡ true
      → (s₁ : Selection) × (add catalog profile k s ≡ ok s₁)
  unfolding add_found
  add-total k s h =
      let (e, named, entry, step) = add-known k s h in
      elim (Bool-cases (contains s.seen k)) [
        | inl old ↦ (s, rw step (rw old))
        | inr new ↦
            (record { selected = s.selected ++ (e ∷ []); seen = k ∷ s.seen }, rw step (rw new))
      ]

  -- An unknown id ends the run with an error that names it.
  pub add_all-unknown :
      (ks : List String) (s : Selection)
      → all (known catalog) ks ≡ false
      → (k : String) × (contains ks k ≡ true)
        × (known catalog k ≡ false)
        × (add_all catalog profile ks s ≡ raised (value_error (unknown_firmware profile k)))
  unfolding add_all
  add_all-unknown [] s h = cc
  add_all-unknown (k ∷ ks) s h = elim (Bool-cases (known catalog k)) [
    | inl fine ↦
        let (s₁, step) = add-total k s fine in
        let (j, among, bad, fails) = add_all-unknown ks s₁ (ground arith) in
        (j, ground arith, bad, rw step fails)
    | inr bad ↦ (k, ground (arith, eq_iff k k), bad, rw (add-unknown k s bad))
  ]

  add_all-append :
      (xs ys : List String) (s : Selection)
      → add_all catalog profile (xs ++ ys) s
        ≡ and_then (add_all catalog profile xs s) (add_all catalog profile ys)
  unfolding add_all
  add_all-append [] ys s = refl
  add_all-append (x ∷ xs) ys s =
      rw (fun_ext (add_all-append xs ys)) (sym (and_then_assoc (add catalog profile x s) _ _))

  -- The loops over requests and over the ids of a request are one loop over the wanted ids.
  pub add_requests-eq-add_all :
      (rs : List String) (s : Selection)
      → add_requests catalog profile rs s ≡ add_all catalog profile (wanted catalog rs) s
  unfolding add_requests
  add_requests-eq-add_all [] s = refl
  add_requests-eq-add_all (r ∷ rs) s = rw (fun_ext (add_requests-eq-add_all rs)) (rw add_all-append)
