-- ===== src/Harness/Identity.antt =====
-- `core_usb_identity`: the USB ids of a core, from its C header. The regular expression
-- ^\s*#\s*define\s+NAME\s+(0[xX][0-9a-fA-F]+|[0-9]+)\b is read as a match at the start of a line.
pub mod Printed
use canokey_usbip.Prelude.{
  ℕ, ◌+◌, ◌-◌, ◌*◌, String, ◌<>◌, Bool, true, false, not, ◌&&◌, ◌||◌, Option, none, some, List, [],
  ◌∷◌, leb, eqb, show_hex_wide, if◌then◌else◌,
}
use canokey_usbip.Host.{
  FilePath, join, Env, Exc, os_error, value_error, in_phase, Exec, pure, raise, catch, ◌>>=◌,
}
use canokey_usbip.Host.Calls.{is_file, read_text}
use canokey_usbip.Text.Strip.{is_space}
use canokey_usbip.Text.Match.{codes, is_digit, strip_prefix, span, decimal}
use canokey_usbip.Platform.{default_vid, default_pid}

abbrev is_hex : ℕ → Bool
is_hex c = is_digit c || (leb b'a' c && leb c b'f') || (leb b'A' c && leb c b'F')

-- \w, of ASCII text
abbrev is_word : ℕ → Bool
is_word c = is_digit c || (leb b'a' c && leb c b'z') || (leb b'A' c && leb c b'Z') || eqb c b'_'

-- \b behind a word character.
abbrev at_boundary : List ℕ → Bool
at_boundary [] = true
at_boundary (c ∷ s) = not (is_word c)

skip_spaces : List ℕ → List ℕ
skip_spaces s = (span is_space s).1

-- \s+
skip_some_spaces : List ℕ → Option (List ℕ)
skip_some_spaces [] = none
skip_some_spaces (c ∷ s) = if is_space c then some (skip_spaces s) else none

hex_value : ℕ → List ℕ → ℕ
hex_value n [] = n
hex_value n (c ∷ s) =
    hex_value (n * 16 + (if is_digit c then c - 48 else if leb b'a' c then c - 87 else c - 55)) s

-- What follows a match: int(text, 0) refuses a decimal with a leading zero that is not all zeros.
pub data Number : Type 0 where
  value : ℕ → Number
  bad_literal : Number

all_zeros : List ℕ → Bool
all_zeros [] = true
all_zeros (c ∷ s) = eqb c b'0' && all_zeros s

decimal_number : List ℕ → Number
decimal_number [] = bad_literal
decimal_number (c ∷ s) =
    if eqb c b'0' && not (all_zeros s) then bad_literal else value (decimal 0 (c ∷ s))

-- [0-9]+\b
match_decimal : List ℕ × List ℕ → Option Number
match_decimal ([], rest) = none
match_decimal (d ∷ ds, rest) = if at_boundary rest then some (decimal_number (d ∷ ds)) else none

-- [0-9a-fA-F]+\b, behind 0x; the other branch could only take the 0, at whose end is no boundary
match_hex : List ℕ × List ℕ → Option Number
match_hex ([], rest) = none
match_hex (d ∷ ds, rest) = if at_boundary rest then some (value (hex_value 0 (d ∷ ds))) else none

match_literal : List ℕ → Option Number
match_literal [] = none
match_literal (c ∷ []) = match_decimal (span is_digit (c ∷ []))
match_literal (c ∷ d ∷ s) =
    if eqb c b'0' && (eqb d b'x' || eqb d b'X')
    then match_hex (span is_hex s)
    else match_decimal (span is_digit (c ∷ d ∷ s))

abbrev bind_option : {A B : Type 0} → Option A → (A → Option B) → Option B
bind_option none f = none
bind_option (some a) f = f a

-- The literal of a definition that starts here.
unfoldable pub match_define : String → List ℕ → Option Number
unfolding skip_spaces skip_some_spaces match_literal match_hex match_decimal decimal_number
    all_zeros hex_value
match_define name text = bind_option (strip_prefix (codes "#") (skip_spaces text)) λ s₁.
    bind_option (strip_prefix (codes "define") (skip_spaces s₁)) λ s₂.
      bind_option (skip_some_spaces s₂) λ s₃.
        bind_option (strip_prefix (codes name) s₃)
          λ s₄. bind_option (skip_some_spaces s₄) match_literal

-- re.search, with re.MULTILINE.
unfoldable pub search_define : String → Bool → List ℕ → Option Number
unfolding match_define
search_define name starts [] = none
search_define name false (c ∷ text) = search_define name (eqb c b'\n') text
search_define name true (c ∷ text) =
    let later = search_define name (eqb c b'\n') text in
    elim (match_define name (c ∷ text)) [ some n ↦ some n | none ↦ later ]

-- f"{n:04x}"
unfoldable pub hex4 : ℕ → String
hex4 n = show_hex_wide 4 n

module _ {S : Type 0} where
  unfoldable pub defined : String → FilePath → Option Number → Exec S String
  unfolding hex4
  defined name descriptor none =
      raise (in_phase "resolve-core" ("cannot resolve " <> (name <> (" from " <> descriptor))))
  defined name descriptor (some (value n)) = pure (hex4 n)
  defined name descriptor (some bad_literal) =
      raise (value_error "invalid literal for int() with base 0")

  unfoldable pub unreadable_header : {A : Type 0} → FilePath → Exc → Exec S A
  unreadable_header descriptor (os_error k m) =
      raise (in_phase "resolve-core" ("cannot read USB descriptor identity: " <> descriptor))
  unreadable_header descriptor e = raise e

  -- One round of the loop over the two names.
  unfoldable pub read_define : FilePath → String → String → Exec S String
  unfolding defined search_define
  read_define descriptor content name =
      defined name descriptor (search_define name true (codes content))

  unfoldable pub parse_identity : FilePath → String → Exec S (String × String)
  unfolding read_define
  parse_identity descriptor content = do
    vid ← read_define descriptor content "USBD_VID"
    pid ← read_define descriptor content "USBD_PID"
    pure (vid, pid)

module _ ⦃host : Env⦄ {S : Type 0} where
  unfoldable pub core_usb_identity : FilePath → Exec S (String × String)
  unfolding unreadable_header parse_identity
  core_usb_identity destination = do
    rust ← is_file (join destination "crates/ffi/Cargo.toml")
    if rust then pure (default_vid, default_pid) else do
      let descriptor =
          join (join (join (join destination "interfaces") "USB") "device") "usbd_desc.h"
      content ← catch (read_text descriptor) (unreadable_header descriptor)
      parse_identity descriptor content
