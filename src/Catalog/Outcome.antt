-- ===== src/Catalog/Outcome.antt =====
-- What the program prints or refuses, for every command line.
use canokey_usbip.Prelude.{
  ◌≡◌, refl, Bool, true, false, Option, none, some, List, [], map, String, ◌<>◌, lookup, contains,
  fresh, all, Bool-cases, inl, inr, pos,
}
use canokey_usbip.Host.{system_exit, Result, ok, raised}
use canokey_usbip.Catalog.Defs.{Firmware, Catalog, Profiles, list_firmwares, select}
use canokey_usbip.Catalog.Main.{
  Args, Entries, Printed, list_release_mappings, choose_entries, refuse, main,
}
use canokey_usbip.Catalog.Loop.{entry_with, wanted, known, unknown_firmware}
use canokey_usbip.Catalog.Selection.{list_firmwares-entries, list_firmwares-unknown}

abbrev printed : Args → Entries → Result Printed
printed args es = ok (record { entries = es; compact = args.compact })

-- parser.error
abbrev refused : String → Result Printed
refused why = raised (system_exit (pos 2) why)

-- The release map, if it is asked for; else all firmwares; else the entries that a profile stands for,
-- each once and in the order of the profile; else a refusal that names what is not known.
pub data Outcome (args : Args) (catalog : Catalog) (profiles : Profiles) (r : Result Printed)
    : Type 0 where
  release_map :
      args.release_map ≡ true
      → r ≡ printed args (Entries.mappings catalog.release_mappings)
      → Outcome args catalog profiles r
  everything :
      args.release_map ≡ false
      → args.profile ≡ none
      → r ≡ printed args (Entries.firmwares catalog.firmwares)
      → Outcome args catalog profiles r
  selected :
      (profile : String) (requests : List String) (es : List Firmware)
      → args.release_map ≡ false
      → args.profile ≡ some profile
      → lookup profile profiles ≡ some requests
      → map some es ≡ map (entry_with catalog.firmwares) (fresh [] (wanted catalog requests))
      → r ≡ printed args (Entries.firmwares es)
      → Outcome args catalog profiles r
  no_profile :
      (profile : String)
      → args.release_map ≡ false
      → args.profile ≡ some profile
      → lookup profile profiles ≡ none
      → r ≡ refused ("unknown profile: " <> profile)
      → Outcome args catalog profiles r
  no_firmware :
      (profile : String) (requests : List String) (k : String)
      → args.release_map ≡ false
      → args.profile ≡ some profile
      → lookup profile profiles ≡ some requests
      → contains (wanted catalog requests) k ≡ true
      → known catalog k ≡ false
      → r ≡ refused (unknown_firmware profile k)
      → Outcome args catalog profiles r

module _ (catalog : Catalog) (profiles : Profiles) (compact : Bool) where
  abbrev for_profile : Option String → Args
  for_profile o = record { profile = o; release_map = false; compact = compact }

  abbrev Ends : Args → Type 0
  Ends args = Outcome args catalog profiles (main args catalog profiles)

  profile-Outcome :
      (profile : String) (o : Option (List String))
      → lookup profile profiles ≡ o
      → Ends (for_profile (some profile))
  unfolding main choose_entries refuse list_firmwares select
  profile-Outcome profile none listed = Outcome.no_profile profile refl refl listed (rw listed refl)
  profile-Outcome profile (some requests) listed =
      elim (Bool-cases (all (known catalog) (wanted catalog requests))) [
        | inl fine ↦
            let (es, runs, shape, entries) =
              list_firmwares-entries catalog profiles profile requests listed fine in
            Outcome.selected profile requests es refl refl listed entries (rw runs refl)
        | inr bad ↦
            let (k, among, missing, fails) =
              list_firmwares-unknown catalog profiles profile requests listed bad in
            Outcome.no_firmware profile requests k refl refl listed among missing (rw fails refl)
      ]

  choice-Outcome : (o : Option String) → Ends (for_profile o)
  unfolding main choose_entries refuse list_firmwares
  choice-Outcome none = Outcome.everything refl refl refl
  choice-Outcome (some profile) = profile-Outcome profile (lookup profile profiles) refl

  map-Outcome :
      (o : Option String) (asked : Bool)
      → Ends (record { profile = o; release_map = asked; compact = compact })
  unfolding main choose_entries refuse list_release_mappings
  map-Outcome o true = Outcome.release_map refl refl
  map-Outcome o false = choice-Outcome o

-- For every command line and all contents of the two files, the program prints the release map where it
-- is asked for, else all firmwares or, of each id that the profile stands for, once and in order, the
-- whole entry, which is the last one with that id in the file; or it ends with exit code 2 and names the profile that is not listed, or an id of the profile that has no
-- entry.
pub main-Outcome :
    (args : Args) (catalog : Catalog) (profiles : Profiles)
    → Outcome args catalog profiles (main args catalog profiles)
main-Outcome args catalog profiles =
    map-Outcome catalog profiles args.compact args.profile args.release_map
