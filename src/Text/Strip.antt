-- ===== src/Text/Strip.antt =====
-- str.strip, str.lower (on ASCII letters), and the parts of a path. The text that the runner cuts
-- comes from sysfs, git and usbip, which write ASCII.
use Prim.Native.Char.{Char, code}
use canokey_usbip.Prelude.{
  ◌≡◌, refl, ℕ, String, ◌<>◌, Bool, ◌&&◌, ◌||◌, leb, eqb, ◌==◌, if◌then◌else◌,
}

-- str.isspace, for one code point.
abbrev pub is_space : ℕ → Bool
is_space c =
    (leb 9 c && leb c 13)
    || (leb 28 c && leb c 32)
    || eqb c 133
    || eqb c 160
    || eqb c 5760
    || (leb 8192 c && leb c 8202)
    || eqb c 8232
    || eqb c 8233
    || eqb c 8239
    || eqb c 8287
    || eqb c 12288

unfoldable pub lstrip : String → String
lstrip String.[] = String.[]
lstrip (String.◌∷◌ c s) = let rest = lstrip s in if is_space (code c) then rest else String.◌∷◌ c s

unfoldable pub rstrip : String → String
rstrip String.[] = String.[]
rstrip (String.◌∷◌ c s) =
    let rest = rstrip s in if is_space (code c) && rest == "" then String.[] else String.◌∷◌ c rest

unfoldable pub strip : String → String
unfolding lstrip rstrip
strip s = rstrip (lstrip s)

-- str.translate, for one character: the one of `to` at the place where it stands in `from`.
translate : String → String → Char → Char
translate (String.◌∷◌ f from) (String.◌∷◌ g to) c =
    if eqb (code f) (code c) then g else translate from to c
translate _ _ c = c

-- s.lower()
unfoldable pub lower : String → String
unfolding translate
lower String.[] = String.[]
lower (String.◌∷◌ c s) =
    String.◌∷◌ (translate "ABCDEFGHIJKLMNOPQRSTUVWXYZ" "abcdefghijklmnopqrstuvwxyz" c) (lower s)

-- s.splitlines()[0], for a text that is not empty.
unfoldable pub first_line : String → String
first_line String.[] = String.[]
first_line (String.◌∷◌ c s) =
    let rest = first_line s in
    if (leb 10 (code c) && leb (code c) 13)
      || (leb 28 (code c) && leb (code c) 30)
      || eqb (code c) 133
      || eqb (code c) 8232
      || eqb (code c) 8233
    then String.[]
    else String.◌∷◌ c rest

-- The part behind the last slash, and the part before it.
unfoldable pub file_name_onto : String → String → String
file_name_onto String.[] acc = acc
file_name_onto (String.◌∷◌ c s) acc =
    file_name_onto s (if eqb (code c) b'/' then "" else acc <> String.◌∷◌ c String.[])

unfoldable pub file_name : String → String
unfolding file_name_onto
file_name p = file_name_onto p ""

unfoldable pub parent_onto : String → String → String → String
parent_onto String.[] done acc = done
parent_onto (String.◌∷◌ c s) done acc =
    parent_onto s (if eqb (code c) b'/' then acc else done) (acc <> String.◌∷◌ c String.[])

-- Of an absolute path with at least two parts.
unfoldable pub parent : String → String
unfolding parent_onto
parent p = parent_onto p "" ""

lower-strip_example : lower (strip " 20A0\n ") ≡ "20a0"
unfolding strip lower
lower-strip_example = refl

parent_example : parent "/sys/bus/usb/devices/1-1/idVendor" ≡ "/sys/bus/usb/devices/1-1"
unfolding parent
parent_example = refl
