-- ===== src/Platform/State.antt =====
-- The fields of LinuxPlatform, and the constants of the module.
use canokey_usbip.Prelude.{ℕ, String, Bool, false, Option, none, List, []}
use canokey_usbip.Host.{FilePath, Exec, modify}

abbrev pub default_vid : String
default_vid = "20a0"

abbrev pub default_pid : String
default_pid = "42d4"

abbrev pub bus_id : String
bus_id = "1-1"

-- str(USBIP_PORT)
abbrev pub usbip_port : String
usbip_port = "3240"

abbrev pub no_readers_available : ℕ
no_readers_available = 0x8010002E

pub record Platform : Type 0 where
  pub output_dir : FilePath
  -- in seconds
  pub timeout : ℕ
  pub usb_vid : String
  pub usb_pid : String
  pub readiness_requirements : List String
  pub device_path : Option FilePath
  pub usb_port : Option String
  pub owns_attachment : Bool
  pub pcsc_readers_before : List String

-- LinuxPlatform(output_dir, timeout, readiness_requirements=…)
unfoldable pub new_platform : FilePath → ℕ → List String → Platform
new_platform output_dir timeout requirements = record {
  output_dir = output_dir;
  timeout = timeout;
  usb_vid = default_vid;
  usb_pid = default_pid;
  readiness_requirements = requirements;
  device_path = none;
  usb_port = none;
  owns_attachment = false;
  pcsc_readers_before = [];
}

unfoldable pub set_usb_identity : String → String → Exec Platform (Unit {0})
set_usb_identity vid pid = modify (λ p. record p { usb_vid = vid; usb_pid = pid })
