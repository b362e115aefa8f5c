-- ===== src/Control/Resume.antt =====
-- The state file that `write_state` leaves, read back by the commands of compat/runner/control.py.
use canokey_usbip.Prelude.{◌≡◌, refl, ℕ, pos, String, Option, none, some, [], is_some, lookup}
use canokey_usbip.Host.{History, ok, pure, ◌>>=◌, continue}
use canokey_usbip.Platform.{Platform, default_vid, default_pid, new_platform}
use canokey_usbip.Harness.{Harness, state_of, int_of}
use canokey_usbip.Control.Stop.{pid_of}
use canokey_usbip.Control.Main.{recorded_platform}

-- The platform of the harness that wrote the file, as far as a command needs it.
abbrev pub resumed : Harness → Option String → Platform
resumed h usb_port = record {
  output_dir = h.output_dir;
  timeout = h.options.timeout;
  usb_vid = elim h.core [ some core ↦ core.usb_vid | none ↦ default_vid ];
  usb_pid = elim h.core [ some core ↦ core.usb_pid | none ↦ default_pid ];
  readiness_requirements = h.options.readiness_requirements;
  device_path = none;
  usb_port = usb_port;
  owns_attachment = is_some usb_port;
  pcsc_readers_before = [];
}

module _ {S : Type 0} (h : Harness) (pid : ℕ) where
  -- What the harness writes, a command reads back: the same output directory, timeout, requirements and
  -- identity, the recorded port, which it owns exactly when there is one, and the server's pid.
  pub recorded_platform-state_of :
      (port : Option String) (s : S) (t : History)
      → (recorded_platform (state_of h pid port) s t ≡ (ok (resumed h port), s, t))
        × (pid_of (lookup "pid" (state_of h pid port)) s t ≡ (ok (pos pid), s, t))
  unfolding recorded_platform state_of int_of pid_of ◌>>=◌ continue pure new_platform
  recorded_platform-state_of none s t = (refl, refl)
  recorded_platform-state_of (some port) s t = (refl, refl)
