-- ===== src/Catalog/Main.antt =====
-- `main`: what the program prints, or the SystemExit with which parser.error ends it. The contents of
-- the two files are arguments; the layout of the JSON text is left to the print.
use canokey_usbip.Prelude.{Bool, Option, List, pos, String, if◌then◌else◌}
use canokey_usbip.Host.{value_error, system_exit, Result, ok, raised}
use canokey_usbip.Catalog.Defs.{Firmware, Mapping, Catalog, Profiles, list_firmwares, and_then}

-- The command line: --profile and --release-map exclude each other.
pub record Args : Type 0 where
  pub profile : Option String
  pub release_map : Bool
  pub compact : Bool

pub data Entries : Type 0 where
  firmwares : List Firmware → Entries
  mappings : List Mapping → Entries

-- The text: the entries, on one line or indented.
pub record Printed : Type 0 where
  pub entries : Entries
  pub compact : Bool

unfoldable pub list_release_mappings : Catalog → List Mapping
list_release_mappings catalog = catalog.release_mappings

unfoldable pub choose_entries : Args → Catalog → Profiles → Result Entries
unfolding list_release_mappings
choose_entries args catalog profiles =
    if args.release_map
    then ok (Entries.mappings (list_release_mappings catalog))
    else and_then (list_firmwares catalog profiles args.profile) (λ es. ok (Entries.firmwares es))

-- except ValueError as exc: parser.error(str(exc))
unfoldable pub refuse : {A : Type 0} → Result A → Result A
refuse (raised (value_error m)) = raised (system_exit (pos 2) m)
refuse r = r

unfoldable pub main : Args → Catalog → Profiles → Result Printed
unfolding choose_entries refuse
main args catalog profiles =
    and_then (refuse (choose_entries args catalog profiles))
      λ es. ok (record { entries = es; compact = args.compact })
