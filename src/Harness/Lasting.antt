-- ===== src/Harness/Lasting.antt =====
-- The rules of a whole run are stated for every invariant of the harness that its steps keep, and every
-- predicate on events that allows them.
use canokey_usbip.Prelude.{
  Option, ◌≡◌, refl, ℕ, String, false, List, [], ◌∷◌, some, is_empty, insert, update, arith,
}
use canokey_usbip.Host.{FilePath, Event, Json, JsonDict}
use canokey_usbip.Host.Plain.{Anything}
use canokey_usbip.Options.{CoreSource}
use canokey_usbip.Harness.State.{Harness}
use canokey_usbip.Harness.Tidy.{IsCalm, IgnoresPlatform}
use canokey_usbip.Harness.TidyRun.{IsEnding}

-- What the steps of a run change: each of these keeps the invariant.
pub record Lasting (J : Harness → Type 0) : Type 0 where
  pub moved : IgnoresPlatform J
  pub served : (h : Harness) (pid : ℕ) → J h → J (record h { server = some pid })
  pub resolved : (h : Harness) (core : CoreSource) → J h → J (record h { core = some core })
  pub built : (h : Harness) (binary : FilePath) → J h → J (record h { binary = some binary })
  pub noted :
      (h : Harness) (d : JsonDict) → is_empty d ≡ false → J h → J (record h { metadata = d })

-- What the steps of a run call, except for the removal of its workspace.
pub record Permits (P : Event → Type 0) : Type 0 where
  pub calm : (e : Event) → IsCalm e → P e
  pub starts :
      (argv : List String) (cwd : Option FilePath) (added : List (String × String))
      → P (Event.popen argv cwd added)
  pub ends : (e : Event) → IsEnding e → P e

-- Every state, and every call.
abbrev pub AnyEvent : Event → Type 0
AnyEvent e = Unit

pub anything : Lasting Anything
anything = record {
  moved = λ h p j. tt;
  served = λ h pid j. tt;
  resolved = λ h core j. tt;
  built = λ h b j. tt;
  noted = λ h d e j. tt;
}

pub any_event : Permits AnyEvent
any_event = record { calm = λ e h. tt; starts = λ argv cwd added. tt; ends = λ e h. tt }

-- The metadata is not empty: so it stays once it is set.
abbrev pub HasMetadata : Harness → Type 0
HasMetadata h = is_empty h.metadata ≡ false

pub metadata_lasts : Lasting HasMetadata
metadata_lasts = record {
  moved = λ h p j. j;
  served = λ h pid j. j;
  resolved = λ h core j. j;
  built = λ h b j. j;
  noted = λ h d e j. e;
}

pub is_empty-insert : (k : String) (v : Json) (d : JsonDict) → is_empty (insert k v d) ≡ false
is_empty-insert k v [] = refl
is_empty-insert k v ((j, w) ∷ d) = ground arith

pub is_empty-update : (d e : JsonDict) → is_empty d ≡ false → is_empty (update d e) ≡ false
is_empty-update d [] h = h
is_empty-update d ((k, v) ∷ e) h = is_empty-update (insert k v d) e (is_empty-insert k v d)

pub is_empty-update_some :
    (d : JsonDict) (k : String) (v : Json) (e : JsonDict) → is_empty (update d ((k, v) ∷ e)) ≡ false
is_empty-update_some d k v e = is_empty-update (insert k v d) e (is_empty-insert k v d)
