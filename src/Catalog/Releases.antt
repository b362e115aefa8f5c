-- ===== src/Catalog/Releases.antt =====
-- The release map read both ways: from a version to its commit, and from a commit to its version.
use canokey_usbip.Prelude.{
  String, ◌≡◌, refl, true, false, some, List, [], ◌∷◌, map, arith, contains, eq_iff,
}
use canokey_usbip.Catalog.Defs.{Mapping, fetch_ref, firmware_version_for_sha}

-- No version and no commit is listed twice.
abbrev pub IsOneToOne : List Mapping → Type 0
IsOneToOne [] = Unit
IsOneToOne (m ∷ ms) =
    (contains (map (λ (n : Mapping). n.id) ms) m.id ≡ false)
    × (contains (map (λ (n : Mapping). n.core_commit) ms) m.core_commit ≡ false)
    × IsOneToOne ms

fetch_ref-listed :
    (ms : List Mapping) (v : String)
    → contains (map (λ (n : Mapping). n.id) ms) v ≡ true
    → contains (map (λ (n : Mapping). n.core_commit) ms) (fetch_ref ms v) ≡ true
unfolding fetch_ref
fetch_ref-listed [] v h = cc
fetch_ref-listed (m ∷ ms) v h =
    ground (arith, fetch_ref-listed ms v, eq_iff m.id v, eq_iff m.core_commit m.core_commit)

-- In a one-to-one release map, the commit that a listed version is fetched by is mapped back to that
-- version.
pub version-fetch_ref :
    (ms : List Mapping) (v : String)
    → IsOneToOne ms
    → contains (map (λ (n : Mapping). n.id) ms) v ≡ true
    → firmware_version_for_sha ms (fetch_ref ms v) ≡ some v
unfolding fetch_ref firmware_version_for_sha
version-fetch_ref [] v u h = cc
version-fetch_ref (m ∷ ms) v u h = ground (
  arith,
  version-fetch_ref ms v,
  fetch_ref-listed ms v,
  eq_iff m.id v,
  eq_iff m.core_commit m.core_commit,
  eq_iff m.core_commit (fetch_ref ms v),
)

-- A reference that is no listed version is fetched as it is written.
pub fetch_ref-unlisted :
    (ms : List Mapping) (ref : String)
    → contains (map (λ (n : Mapping). n.id) ms) ref ≡ false
    → fetch_ref ms ref ≡ ref
unfolding fetch_ref
fetch_ref-unlisted [] ref h = refl
fetch_ref-unlisted (m ∷ ms) ref h = ground (arith, fetch_ref-unlisted ms ref)

version-listed :
    (ms : List Mapping) (sha v : String)
    → firmware_version_for_sha ms sha ≡ some v
    → contains (map (λ (n : Mapping). n.id) ms) v ≡ true
unfolding firmware_version_for_sha
version-listed [] sha v h = cc
version-listed (m ∷ ms) sha v h = ground (arith, version-listed ms sha v, eq_iff m.id v)

-- In a one-to-one release map, the version that a commit is mapped to is fetched by that commit.
pub fetch_ref-version :
    (ms : List Mapping) (sha v : String)
    → IsOneToOne ms
    → firmware_version_for_sha ms sha ≡ some v
    → fetch_ref ms v ≡ sha
unfolding fetch_ref firmware_version_for_sha
fetch_ref-version [] sha v u h = cc
fetch_ref-version (m ∷ ms) sha v u h = ground (
  arith,
  fetch_ref-version ms sha v,
  version-listed ms sha v,
  eq_iff m.id v,
  eq_iff m.core_commit sha,
)
