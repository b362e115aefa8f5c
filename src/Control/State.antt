-- ===== src/Control/State.antt =====
-- The state file: `load_state`, and what the commands read of its dict. A negative timeout counts as 0,
-- and an identity or a port that is no text as a TypeError: `write_state` writes neither.
use canokey_usbip.Prelude.{
  String, Bool, false, not, ◌||◌, Option, none, some, List, [], ◌∷◌, ◌++◌, map, is_zero, is_empty,
  pos_part, lookup, update, ◌==◌, if◌then◌else◌,
}
use canokey_usbip.Host.{
  FilePath, Json, JsonDict, json, Env, runtime_error, key_error, type_error, Exec, pure, raise,
  gets, modify, ◌>>=◌, ◌>>◌,
}
use canokey_usbip.Host.Calls.{read_json, write_text}
use canokey_usbip.Platform.{Platform, new_platform, default_vid, default_pid}
use canokey_usbip.Harness.{int_of}

-- The local variables of a command: the path and the dict of the state file, and its platform. `start`
-- makes a platform of its own, after which the first one is not used again.
pub record Session : Type 0 where
  pub state_path : FilePath
  pub state : JsonDict
  pub platform : Platform

module _ {S : Type 0} where
  unfoldable pub present : String → Option Json → Exec S Json
  present key none = raise (key_error key)
  present key (some v) = pure v

  -- state[key]
  unfoldable pub required : String → JsonDict → Exec S Json
  unfolding present
  required key state = present key (lookup key state)

  -- A value that must be a text: Path(value), or an argument of a program.
  unfoldable pub text_of : Json → Exec S String
  text_of (Json.str s) = pure s
  text_of _ = raise (type_error "expected str, bytes or os.PathLike object")

  -- state.get(key, default), for a text
  unfoldable pub text_or : String → Option Json → Exec S String
  unfolding text_of
  text_or default none = pure default
  text_or default (some v) = text_of v

  -- tuple(state.get("readiness_requirements", ()))
  unfoldable pub requirements_of : Option Json → Exec S (List String)
  requirements_of none = pure []
  requirements_of (some (Json.strs names)) = pure names
  requirements_of (some (Json.str s)) = pure (letters s)
    where
      letters : String → List String
      letters String.[] = []
      letters (String.◌∷◌ c s) = String.◌∷◌ c String.[] ∷ letters s
  requirements_of (some (Json.table flags lists)) =
      pure (map (λ (k, _). k) flags ++ map (λ (k, _). k) lists)
  requirements_of (some _) = raise (type_error "object is not iterable")

  -- state.get("usb_port")
  unfoldable pub port_of : Option Json → Exec S (Option String)
  port_of none = pure none
  port_of (some Json.null) = pure none
  port_of (some (Json.str port)) = pure (some port)
  port_of (some _) = raise (type_error "expected str, bytes or os.PathLike object")

-- bool(state.get(key))
unfoldable pub is_true : Option Json → Bool
is_true none = false
is_true (some Json.null) = false
is_true (some (Json.bool b)) = b
is_true (some (Json.num n)) = not (is_zero n)
is_true (some (Json.str s)) = not (s == "")
is_true (some (Json.strs xs)) = not (is_empty xs)
is_true (some (Json.table flags lists)) = not (is_empty flags) || not (is_empty lists)

module _ {S : Type 0} where
  -- LinuxPlatform(…), with its identity, as `main` and `start` make it.
  unfoldable pub platform_of : JsonDict → Exec S Platform
  unfolding required text_of text_or requirements_of
  platform_of state = do
    directory ← required "output_dir" state
    output_dir ← text_of directory
    seconds ← required "timeout" state
    timeout ← int_of (some seconds)
    names ← requirements_of (lookup "readiness_requirements" state)
    vid ← text_or default_vid (lookup "usb_vid" state)
    pid ← text_or default_pid (lookup "usb_pid" state)
    pure
        (record (new_platform output_dir (pos_part timeout) names) { usb_vid = vid; usb_pid = pid })

module _ ⦃host : Env⦄ where
  unfoldable pub load_from : {S : Type 0} → Option FilePath → Exec S (FilePath × JsonDict)
  load_from none =
      raise (runtime_error "CANOKEY_USBIP_STATE is not set; run this helper inside compat/run")
  load_from (some path) =
      if path == ""
      then raise (runtime_error "CANOKEY_USBIP_STATE is not set; run this helper inside compat/run")
      else do state ← read_json path; pure (path, state)

  unfoldable pub load_state : {S : Type 0} → Exec S (FilePath × JsonDict)
  unfolding load_from
  load_state = load_from (host.environ "CANOKEY_USBIP_STATE")

  -- state.update(entries), and the file is written.
  unfoldable pub save_state : JsonDict → Exec Session (Unit {0})
  save_state entries = do
    modify (λ s. record s { state = update s.state entries })
    path ← gets (λ s. s.state_path)
    state ← gets (λ s. s.state)
    write_text path (json state)
