-- ===== src/Platform/Usb.antt =====
-- `matching_usb_devices`, `_interface_classes` and `_hidraw_ready`: what sysfs shows.
use canokey_usbip.Prelude.{
  String, ◌<>◌, Bool, true, false, not, Option, none, some, List, [], ◌∷◌, ◌++◌, contains,
  starts_with, ◌==◌, if◌then◌else◌,
}
use canokey_usbip.Host.{FilePath, join, Env, Exc, os_error, Exec, pure, raise, gets, catch, ◌>>=◌}
use canokey_usbip.Host.Calls.{exists, glob, read_text, resolve}
use canokey_usbip.Text.Strip.{strip, lower, parent, file_name}
use canokey_usbip.Platform.State.{Platform}

-- except OSError: the value
abbrev pub on_os_error : {S A : Type 0} → A → Exc → Exec S A
on_os_error a (os_error k m) = pure a
on_os_error a e = raise e

-- devices.add(path)
abbrev pub insert_new : String → List String → List String
insert_new x xs = if contains xs x then xs else xs ++ (x ∷ [])

module _ ⦃host : Env⦄ where
  -- The body of the loop over vendor files, for the devices found so far.
  unfoldable pub match_device : FilePath → List FilePath → Exec Platform (List FilePath)
  match_device vendor_file devices = do
    vendor ← read_text vendor_file
    vid ← gets (λ p. p.usb_vid)
    if not (lower (strip vendor) == vid) then pure devices else do
      product ← read_text (join (parent vendor_file) "idProduct")
      pid ← gets (λ p. p.usb_pid)
      if lower (strip product) == pid
          then (do device ← resolve (parent vendor_file); pure (insert_new device devices))
          else pure devices

  unfoldable pub match_devices : List FilePath → List FilePath → Exec Platform (List FilePath)
  unfolding match_device
  match_devices [] devices = pure devices
  match_devices (f ∷ fs) devices = do
    devices' ← catch (match_device f devices) (on_os_error devices)
    match_devices fs devices'

  unfoldable pub matching_usb_devices : Exec Platform (List FilePath)
  unfolding match_devices
  matching_usb_devices = do
    present ← exists "/sys/bus/usb/devices"
    if not present
        then pure []
        else (do files ← glob "/sys/bus/usb/devices" "*/idVendor"; match_devices files [])

  unfoldable pub read_class : FilePath → List String → Exec Platform (List String)
  read_class value classes = do
    class ← read_text value
    pure (insert_new (lower (strip class)) classes)

  unfoldable pub read_classes : List FilePath → List String → Exec Platform (List String)
  unfolding read_class
  read_classes [] classes = pure classes
  read_classes (v ∷ vs) classes = do
    classes' ← catch (read_class v classes) (on_os_error classes)
    read_classes vs classes'

  unfoldable pub interface_classes_of : Option FilePath → Exec Platform (List String)
  unfolding read_classes
  interface_classes_of none = pure []
  interface_classes_of (some device) = do
    values ← glob device (file_name device <> ":*/bInterfaceClass")
    read_classes values []

  -- `_interface_classes`
  unfoldable pub interface_classes : Exec Platform (List String)
  unfolding interface_classes_of
  interface_classes = do device ← gets (λ p. p.device_path); interface_classes_of device

  unfoldable pub any_below : FilePath → List FilePath → Exec Platform Bool
  any_below base [] = pure false
  any_below base (e ∷ es) = do
    below ← catch (do p ← resolve e; pure (starts_with p base)) (on_os_error false)
    if below then pure true else any_below base es

  unfoldable pub hidraw_ready_of : Option FilePath → Exec Platform Bool
  unfolding any_below
  hidraw_ready_of none = pure false
  hidraw_ready_of (some device) = do
    entries ← glob "/sys/class/hidraw" "hidraw*/device"
    any_below device entries

  -- `_hidraw_ready`
  unfoldable pub hidraw_ready : Exec Platform Bool
  unfolding hidraw_ready_of
  hidraw_ready = do device ← gets (λ p. p.device_path); hidraw_ready_of device
