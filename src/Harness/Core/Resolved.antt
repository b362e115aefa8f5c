-- ===== src/Harness/Core/Resolved.antt =====
-- The source tree that `resolve_core` describes.
use mathlib.Core.List.{Sublistᴰ}
use mathlib.Core.Option.{get_or}
use canokey_usbip.Prelude.{
  ◌≡◌, refl, String, Bool, false, not, ◌&&◌, ◌==◌, map, arith, Option, none, some, List, [], ◌∷◌,
  lookup, if◌then◌else◌, Bool-cases, inl, inr,
}
use canokey_usbip.Host.{
  FilePath, join, Event, History, Env, Loaded, loaded, malformed, unreadable, ok, pure, gets,
  continue, ◌>>=◌,
}
use canokey_usbip.Host.Calls
use canokey_usbip.Host.Calls.{of_loaded}
use canokey_usbip.Host.Within.{Within}
use canokey_usbip.Host.Plain.{IsPlain}
use canokey_usbip.Harness.Tidy.{resolve_core-Tidy}
use canokey_usbip.Harness.Lasting.{AnyEvent, any_event}
use mathlib.Core.Path.{subst, sym, ◌∙◌}
use canokey_usbip.Host.Leads.{Leads, Leads-bind}
use canokey_usbip.Host.Known.{
  Returns, Returns-pure, Returns-bind, Returns-if, Returns-mono, Leads-bind_known, Leads-pure,
  Leads-mono,
}
use canokey_usbip.Options.{Options, CoreSource, is_given}
use canokey_usbip.Catalog
use canokey_usbip.Harness.State.{Harness}
use canokey_usbip.Harness.Core.{
  mapping_of, core_compat_patches, apply_patches, apply_core_compatibility,
  firmware_version_for_sha, describe_core, fetch_core, snapshot_core, resolve_from, resolve_core,
}

-- The patches that are listed for a commit.
abbrev listed : String → List String
listed sha = get_or (lookup sha core_compat_patches) []

-- The release map, with the version of each commit.
abbrev catalog_file : FilePath → FilePath
catalog_file repo_dir = join repo_dir "compat/config/firmwares.yaml"

abbrev versions : List (String × String) → List (String × String)
versions entries = map (λ (id, commit). (commit, id)) entries

-- The latest call has read the release map, and the version is what that has for the commit.
module _ ⦃host : Env⦄ where
  abbrev IsVersion : FilePath → String → Option String → History → Type 0
  IsVersion repo_dir sha version t =
      (u : History) × (entries : List (String × String)) × (t
        ≡ Event.read_text (catalog_file repo_dir) ∷ u)
      × (host.read_mappings (catalog_file repo_dir) u ≡ loaded entries)
      × (version ≡ lookup sha (versions entries))

-- What both ways to a source tree say of it.
abbrev Describes : FilePath → CoreSource → Type 0
Describes destination c = (c.path ≡ destination) × Sublistᴰ c.patches (listed c.sha)

-- How the options name it.
abbrev source_ref : Options → String
source_ref o =
    if is_given o.core_ref
    then get_or o.core_ref ""
    else elim o.core_dir [ some source ↦ "external" | none ↦ "submodule" ]

-- It is the tree in the workspace, with the name that the options give it; only a snapshot is dirty.
abbrev pub ResolvesTo : ⦃host : Env⦄ → Options → FilePath → CoreSource → History → Type 0
ResolvesTo ⦃host = host⦄ o workspace c t =
    Describes (join workspace "core") c
    × (c.ref ≡ source_ref o)
    × ((is_given o.core_ref && c.dirty) ≡ false)
    × IsVersion o.repo_dir c.sha c.firmware_version t

first_version :
    (sha : String) (entries : List (String × String))
    → Catalog.firmware_version_for_sha (map mapping_of entries) sha ≡ lookup sha (versions entries)
unfolding Catalog.firmware_version_for_sha
first_version sha [] = refl
first_version sha ((id, commit) ∷ entries) = ground (arith, first_version sha entries)

module _ ⦃host : Env⦄ where
  apply_patches-Sublistᴰ :
      (patch_dir destination : FilePath) (ps : List String)
      → Returns (λ applied. Sublistᴰ applied ps) (apply_patches patch_dir destination ps)
  unfolding apply_patches
  apply_patches-Sublistᴰ patch_dir destination [] = Returns-pure _ [] Sublistᴰ.slnil
  apply_patches-Sublistᴰ patch_dir destination (p ∷ ps) =
      let rest = apply_patches-Sublistᴰ patch_dir destination ps in
      Leads-bind _ _ _ λ skip.
        Returns-if (λ applied. Sublistᴰ applied (p ∷ ps)) skip _ _
          (Returns-mono _ (λ applied x. Sublistᴰ.cons x) rest)
          (Leads-bind _ _ _ λ u.
            Returns-bind _ _ _ _ rest
              λ applied x. Returns-pure _ (p ∷ applied) (Sublistᴰ.cons-cons refl x))

  compatible :
      (destination : FilePath) (sha : String)
      → Returns
          (λ applied. Sublistᴰ applied (listed sha))
          (apply_core_compatibility destination sha)
  unfolding apply_core_compatibility
  compatible destination sha =
      Leads-bind _ _ _ λ repo_dir. apply_patches-Sublistᴰ _ destination (listed sha)

  -- With the repository of the state.
  abbrev Versioned : String → Option String → Harness → History → Type 0
  Versioned sha version h t = IsVersion h.options.repo_dir sha version t

  read_version :
      (sha : String) (r : Loaded (List (String × String))) (h : Harness) (t : History)
      (version : Option String)
      → host.read_mappings (catalog_file h.options.repo_dir) t ≡ r
      → let read =
          continue
            (of_loaded r)
            (λ entries. pure (map mapping_of entries))
            h
            (Event.read_text (catalog_file h.options.repo_dir) ∷ t) in
        let found =
          continue read.0
            (λ mappings. pure (Catalog.firmware_version_for_sha mappings sha))
            read.1
            read.2 in
        found.0 ≡ ok version → Versioned sha version found.1 found.2
  unfolding continue pure
  read_version sha (loaded entries) h t version e given =
      let same : Catalog.firmware_version_for_sha (map mapping_of entries) sha ≡ version = cc in
      (t, entries, refl, e, sym same ∙ first_version sha entries)
  read_version sha (malformed m) h t version e given = absurd (cc)
  read_version sha (unreadable k m) h t version e given = absurd (cc)

  firmware_version_for_sha-Versioned :
      (sha : String) → Leads (Versioned sha) (firmware_version_for_sha sha)
  unfolding firmware_version_for_sha gets ◌>>=◌ continue Calls.read_mappings pure
  firmware_version_for_sha-Versioned sha = record {
    at = λ h t version e. read_version sha _ h t version refl e;
  }

  abbrev Named : FilePath → String → Bool → CoreSource → Harness → History → Type 0
  Named destination ref dirty c h t =
      Describes destination c
      × (c.ref ≡ ref)
      × (c.dirty ≡ dirty)
      × Versioned c.sha c.firmware_version h t

  describe_core-Named :
      (destination : FilePath) (sha ref : String) (dirty : Bool)
      → Leads (Named destination ref dirty) (describe_core destination sha ref dirty)
  unfolding describe_core
  describe_core-Named destination sha ref dirty =
      Leads-bind_known _ _ _ _ (compatible destination sha) λ patches listed.
        Leads-bind _ _ _ λ identity.
          Leads-pure (Versioned sha) _ _ _
            (λ version h t found. ((refl, listed), refl, refl, found))
            (firmware_version_for_sha-Versioned sha)

  fetch_core-Named :
      (destination : FilePath) (ref : String)
      → Leads (Named destination ref false) (fetch_core destination ref)
  unfolding fetch_core
  fetch_core-Named destination ref = Leads-bind _ _ _ λ _. Leads-bind _ _ _ λ _.
      Leads-bind _ _ _ λ _. Leads-bind _ _ _ λ _. Leads-bind _ _ _ λ _. Leads-bind _ _ _ λ _.
        Leads-bind _ _ _ λ _. Leads-bind _ _ _ λ sha. describe_core-Named destination sha ref false

  -- A snapshot, clean or dirty.
  abbrev Taken : FilePath → String → CoreSource → Harness → History → Type 0
  Taken destination ref c h t =
      Describes destination c × (c.ref ≡ ref) × Versioned c.sha c.firmware_version h t

  snapshot_core-Taken :
      (destination source : FilePath) (ref : String)
      → Leads (Taken destination ref) (snapshot_core destination source ref)
  unfolding snapshot_core
  snapshot_core-Taken destination source ref = Leads-bind _ _ _ λ _. Leads-bind _ _ _ λ _.
      Leads-bind _ _ _ λ sha. Leads-bind _ _ _ λ changes. Leads-bind _ _ _ λ _.
        Leads-bind _ _ _ λ _. Leads-bind _ _ _ λ _. Leads-bind _ _ _ λ _.
          Leads-mono _ (λ c h t (w, r, d, v). (w, r, v))
            (describe_core-Named destination sha ref (not (changes == "")))

  tree-Taken :
      (destination repo_dir : FilePath) (d : Option FilePath)
      → Leads
          (Taken destination (elim d [ some source ↦ "external" | none ↦ "submodule" ]))
          (elim d [
            | some source ↦ snapshot_core destination source "external"
            | none ↦ snapshot_core destination (join repo_dir "canokey-core") "submodule"
          ])
  tree-Taken destination repo_dir none = snapshot_core-Taken destination _ "submodule"
  tree-Taken destination repo_dir (some source) = snapshot_core-Taken destination source "external"

  abbrev Resolves : Options → FilePath → CoreSource → Harness → History → Type 0
  Resolves o workspace c h t =
      Describes (join workspace "core") c
      × (c.ref ≡ source_ref o)
      × ((is_given o.core_ref && c.dirty) ≡ false)
      × Versioned c.sha c.firmware_version h t

  resolve_from-Resolves :
      (o : Options) (workspace : FilePath)
      → Leads (Resolves o workspace) (resolve_from o (join workspace "core"))
  unfolding resolve_from
  resolve_from-Resolves o workspace = elim (Bool-cases (is_given o.core_ref)) [
    | inl given ↦ rw given (
        Leads-mono _ (λ c h t (w, r, d, v). (w, rw given r, rw given d, v))
          (fetch_core-Named (join workspace "core") (get_or o.core_ref "")))
    | inr missing ↦ rw missing (
        Leads-mono _ (λ c h t (w, r, v). (w, rw missing r, rw missing refl, v))
          (tree-Taken (join workspace "core") o.repo_dir o.core_dir))
  ]

  -- It changes no field of the harness.
  resolve_core-keeps : (h : Harness) (t : History) → (resolve_core h t).1 ≡ h
  resolve_core-keeps h t =
      let w : Within (Unit {0}) (λ s. s ≡ h) AnyEvent IsPlain resolve_core =
        resolve_core-Tidy any_event.calm in
      w.state h t refl

-- If `resolve_core` returns, the tree is the one in the run's workspace, with the name that the options give it;
-- its patches are some of those that are listed for its commit, in their order; a fetched tree does not
-- count as dirty; and the latest call has read the release map of the repository, with the version of the
-- tree as the first one there for its commit, if there is one.
pub resolve_core-ResolvesTo :
    ⦃host : Env⦄ (h : Harness) (t : History) (c : CoreSource)
    → (resolve_core h t).0 ≡ ok c
    → ResolvesTo h.options h.workspace c (resolve_core h t).2
unfolding resolve_core ◌>>=◌ gets continue
resolve_core-ResolvesTo h t c e =
    let (w, r, d, v) = (resolve_from-Resolves h.options h.workspace).at h t c e in
    (
      w,
      r,
      d,
      subst (λ s. IsVersion s.options.repo_dir c.sha c.firmware_version (resolve_core h t).2)
          (resolve_core-keeps h t) v,
    )
