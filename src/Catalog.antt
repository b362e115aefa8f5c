-- ===== src/Catalog.antt =====
-- compat/runner/catalog.py: the firmware catalog and the expansion of a profile, over the parsed
-- contents of config/firmwares.yaml and config/profiles.yaml.
-- argparse and the text of the JSON print are not modelled.
mod Defs
mod Main
pub mod Loop
pub mod Selection
pub mod Releases
pub mod Outcome
unfoldable pub use Defs.*
unfoldable pub use Main.*
