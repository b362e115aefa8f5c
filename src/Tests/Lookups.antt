-- ===== src/Tests/Lookups.antt =====
-- A catalog with an alias and a release map, and its expansions.
use canokey_usbip.Prelude.{
  ◌≡◌, refl, String, true, false, some, List, [], ◌∷◌, contains, fresh, HasNoRepeats,
}
use canokey_usbip.Host.{ok, raised, value_error}
use canokey_usbip.Catalog.{
  Firmware, Mapping, Catalog, Profiles, ids, list_firmwares, fetch_ref, firmware_version_for_sha,
  expand, by_id,
}
use canokey_usbip.Catalog.Loop.{known, wanted, unknown_firmware}
use canokey_usbip.Catalog.Selection.{
  list_firmwares-fresh, list_firmwares-unknown, list_firmwares-HasNoRepeats,
}
use canokey_usbip.Catalog.{Args, main}
use canokey_usbip.Catalog.Outcome.{Outcome, main-Outcome}
use canokey_usbip.Catalog.Releases.{version-fetch_ref, fetch_ref-version}

abbrev head : Firmware
head = record { id = "head"; fields = [] }

abbrev latest : Firmware
latest = record { id = "3.0.1"; fields = [] }

abbrev oldest : Firmware
oldest = record { id = "2.0.0"; fields = [] }

abbrev releases : List Mapping
releases =
    record { id = "3.0.1"; core_commit = "aaaa" }
    ∷ record { id = "2.0.0"; core_commit = "bbbb" }
    ∷ []

abbrev small : Catalog
small = record {
  firmwares = head ∷ latest ∷ oldest ∷ [];
  aliases = ("latest-stable", "3.0.1") ∷ [];
  release_mappings = releases;
}

abbrev profiles : Profiles
profiles = ("pr", "latest-stable" ∷ "all-supported-releases" ∷ []) ∷ ("bad", "9.9.9" ∷ []) ∷ []

abbrev pr_requests : List String
pr_requests = "latest-stable" ∷ "all-supported-releases" ∷ []

list_firmwares-fresh_example :
    (r : List Firmware) × (list_firmwares small profiles (some "pr") ≡ ok r)
    × (ids r ≡ fresh [] (wanted small pr_requests))
unfolding expand
list_firmwares-fresh_example = list_firmwares-fresh small profiles "pr" pr_requests refl refl

list_firmwares-HasNoRepeats_example :
    HasNoRepeats (ids (latest ∷ oldest ∷ []))
    × ((k : String)
        → contains (ids (latest ∷ oldest ∷ [])) k ≡ contains (wanted small pr_requests) k)
unfolding list_firmwares by_id
list_firmwares-HasNoRepeats_example =
    list_firmwares-HasNoRepeats small profiles "pr" pr_requests (latest ∷ oldest ∷ []) refl refl

list_firmwares-unknown_example :
    (k : String) × (contains (wanted small ("9.9.9" ∷ [])) k ≡ true)
    × (known small k ≡ false)
    × (list_firmwares small profiles (some "bad") ≡ raised (value_error (unknown_firmware "bad" k)))
unfolding expand
list_firmwares-unknown_example =
    list_firmwares-unknown small profiles "bad" ("9.9.9" ∷ []) refl refl

version-fetch_ref_example :
    firmware_version_for_sha releases (fetch_ref releases "2.0.0") ≡ some "2.0.0"
version-fetch_ref_example = version-fetch_ref releases "2.0.0" (refl, refl, (refl, refl, tt)) refl

fetch_ref-version_example : fetch_ref releases "2.0.0" ≡ "bbbb"
unfolding firmware_version_for_sha
fetch_ref-version_example =
    fetch_ref-version releases "bbbb" "2.0.0" (refl, refl, (refl, refl, tt)) refl

abbrev args : Args
args = record { profile = some "pr"; release_map = false; compact = true }

main-Outcome_example : Outcome args small profiles (main args small profiles)
main-Outcome_example = main-Outcome args small profiles
