-- ===== src/Catalog/Defs.antt =====
-- `list_firmwares` and `list_release_mappings`, with the look-ups of the release map that the harness
-- makes (`firmware_version_for_sha`, and the choice of `fetch_ref` in `resolve_core`).
use mathlib.Core.Option.{get_or}
use canokey_usbip.Prelude.{
  String, ◌<>◌, not, Option, none, some, List, [], ◌∷◌, ◌++◌, map, contains, keep, lookup, update,
  ◌==◌, if◌then◌else◌,
}
use canokey_usbip.Host.{JsonDict, value_error, Result, ok, raised}

-- One entry of "firmwares"; the code reads its id and passes the rest on.
pub record Firmware : Type 0 where
  pub id : String
  pub fields : JsonDict

-- One entry of "release_mappings".
pub record Mapping : Type 0 where
  pub id : String
  pub core_commit : String

pub record Catalog : Type 0 where
  pub firmwares : List Firmware
  pub aliases : List (String × String)
  pub release_mappings : List Mapping

-- profiles[name]["firmwares"]
abbrev pub Profiles : Type 0
Profiles = List (String × List String)

abbrev pub ids : List Firmware → List String
ids = map (λ e. e.id)

-- {entry["id"]: entry for entry in entries}
unfoldable pub by_id : List Firmware → List (String × Firmware)
by_id entries = update [] (map (λ e. (e.id, e)) entries)

pub record Selection : Type 0 where
  pub selected : List Firmware
  pub seen : List String

-- The ids that one request of a profile stands for.
unfoldable pub expand : Catalog → String → List String
expand catalog requested =
    if requested == "all-supported-releases"
    then keep (λ k. not (k == "head")) (ids catalog.firmwares)
    else get_or (lookup requested catalog.aliases) requested ∷ []

unfoldable pub add_found : String → String → Option Firmware → Selection → Result Selection
add_found profile k none s =
    raised (value_error ("profile " <> (profile <> (" references unknown firmware: " <> k))))
add_found profile k (some e) s =
    if contains s.seen k
    then ok s
    else ok (record { selected = s.selected ++ (e ∷ []); seen = k ∷ s.seen })

abbrev pub and_then : {A B : Type 0} → Result A → (A → Result B) → Result B
and_then (ok a) f = f a
and_then (raised e) f = raised e
and_then Result.diverged f = Result.diverged

module _ (catalog : Catalog) (profile : String) where
  -- The body of the loop over `ids`.
  unfoldable pub add : String → Selection → Result Selection
  unfolding add_found
  add k s = add_found profile k (lookup k (by_id catalog.firmwares)) s

  unfoldable pub add_all : List String → Selection → Result Selection
  unfolding add
  add_all [] s = ok s
  add_all (k ∷ ks) s = and_then (add k s) (add_all ks)

  unfoldable pub add_requests : List String → Selection → Result Selection
  unfolding add_all expand
  add_requests [] s = ok s
  add_requests (r ∷ rs) s = and_then (add_all (expand catalog r) s) (add_requests rs)

unfoldable pub nothing_selected : Selection
nothing_selected = record { selected = []; seen = [] }

unfoldable pub select : Catalog → String → Option (List String) → Result (List Firmware)
unfolding add_requests nothing_selected
select catalog profile none = raised (value_error ("unknown profile: " <> profile))
select catalog profile (some requests) =
    and_then (add_requests catalog profile requests nothing_selected) (λ s. ok s.selected)

unfoldable pub list_firmwares : Catalog → Profiles → Option String → Result (List Firmware)
unfolding select
list_firmwares catalog profiles none = ok catalog.firmwares
list_firmwares catalog profiles (some profile) = select catalog profile (lookup profile profiles)

-- next((item["core_commit"] for item in mappings if item["id"] == ref), ref)
unfoldable pub fetch_ref : List Mapping → String → String
fetch_ref [] ref = ref
fetch_ref (m ∷ ms) ref = if m.id == ref then m.core_commit else fetch_ref ms ref

unfoldable pub firmware_version_for_sha : List Mapping → String → Option String
firmware_version_for_sha [] sha = none
firmware_version_for_sha (m ∷ ms) sha =
    if m.core_commit == sha then some m.id else firmware_version_for_sha ms sha
