-- ===== src/Harness/State.antt =====
-- The fields of Harness, its constructor, and the calls of its platform's methods.
use mathlib.Core.Option.{get_or}
use canokey_usbip.Prelude.{String, Bool, Option, none, [], is_some, ◌==◌}
use canokey_usbip.Host.{FilePath, join, JsonDict, Env, Exec, zoom}
use canokey_usbip.Options.{Options, CoreSource}
use canokey_usbip.Platform.{Platform, new_platform}
use canokey_usbip.Prelude.{ℕ}

pub record Harness : Type 0 where
  pub options : Options
  pub run_id : String
  pub workspace : FilePath
  pub output_dir : FilePath
  pub storage : FilePath
  pub explicit_storage : Bool
  pub core : Option CoreSource
  pub binary : Option FilePath
  -- the process of the server, by its pid
  pub server : Option ℕ
  pub platform : Platform
  pub metadata : JsonDict
  pub state_path : FilePath
  pub debug : Bool

-- Harness(options), for a fresh run id and the system's temporary directory. The paths of the options
-- are resolved already.
unfoldable pub new_harness : ⦃host : Env⦄ → Options → String → FilePath → Harness
unfolding join new_platform
new_harness ⦃host⦄ options run_id temp =
    let workspace = join (join temp "canokey-usbip") run_id in
    record {
      options = options;
      run_id = run_id;
      workspace = workspace;
      output_dir = options.output_dir;
      storage = get_or options.storage (join workspace "device.lfs");
      explicit_storage = is_some options.storage;
      core = none;
      binary = none;
      server = none;
      platform = new_platform options.output_dir options.timeout options.readiness_requirements;
      metadata = [];
      state_path = join workspace "state.json";
      debug = get_or (host.environ "CANOKEY_USBIP_DEBUG") "" == "1";
    }

abbrev pub on_platform : {A : Type 0} → Exec Platform A → Exec Harness A
on_platform = zoom (λ h. h.platform) (λ p h. record h { platform = p })
