-- ===== src/Platform/Ports/Table.antt =====
-- The table that `usbip port` prints, and the port that `find_usbip_port` finds in it.
use canokey_usbip.Prelude.{
  ◌≡◌, refl, ap, sym, ◌∙◌, ℕ, ◌+◌, ◌/◌, ◌%◌, ◌<◌, String, true, false, Option, none, some, List, [],
  ◌∷◌, ◌++◌, map, arith, eqb, is_some, show, Bool-cases, inl, inr, if◌then◌else◌,
}
use canokey_usbip.Platform.Ports.Lines.{is_plain, starts_line, blocks-plain, find_header-plain}
use mathlib.Core.List.{append-nil}
use canokey_usbip.Text.Strip.{is_space}
use canokey_usbip.Text.Match.{codes, is_digit, strip_prefix, span, decimal}
use canokey_usbip.Platform.Ports.{
  some_of, colon, header, blocks, find_header, names_device, first_port, parse_ports,
}

-- A port and what is printed of it, behind the colon.
pub record Entry : Type 0 where
  pub number : ℕ
  pub body : List ℕ

-- The number has at most two digits, no line of the body starts with P, and the last one is whole.
abbrev pub IsEntry : Entry → Type 0
IsEntry e = (e.number < 100) × (is_plain false e.body ≡ true) × (starts_line false e.body ≡ true)

abbrev high : ℕ → ℕ
high n = 48 + n / 10

abbrev low : ℕ → ℕ
low n = 48 + n % 10

-- Behind the first letter.
abbrev behind : Entry → List ℕ
behind e = codes "ort " ++ (high e.number ∷ low e.number ∷ b':' ∷ e.body)

-- "Port %02d:", and the body.
abbrev pub entry_text : Entry → List ℕ
entry_text e = b'P' ∷ behind e

module _ (n : ℕ) (h : n < 100) where
  high-is_digit : is_digit (high n) ≡ true
  high-is_digit = ground arith

  high-is_space : is_space (high n) ≡ false
  high-is_space = ground arith

  high-in_line : eqb (high n) b'\n' ≡ false
  high-in_line = ground arith

  low-is_digit : is_digit (low n) ≡ true
  low-is_digit = ground arith

  low-in_line : eqb (low n) b'\n' ≡ false
  low-in_line = ground arith

header-entry :
    (e : Entry) (rest : List ℕ) → e.number < 100 → header (entry_text e ++ rest) ≡ some e.number
unfolding header strip_prefix span some_of colon decimal
header-entry e rest h =
    rw (high-is_space e.number h, high-is_digit e.number h, low-is_digit e.number h)
      (ap some (omega arith))

is_plain-in_line :
    (c : ℕ) (s : List ℕ) → eqb c b'\n' ≡ false → is_plain false (c ∷ s) ≡ is_plain false s
unfolding is_plain
is_plain-in_line c s h = ap (λ b. is_plain b s) h

is_plain-behind : (e : Entry) → IsEntry e → is_plain false (behind e) ≡ true
unfolding is_plain
is_plain-behind e (h, plain, whole) =
    is_plain-in_line (high e.number) (low e.number ∷ b':' ∷ e.body) (high-in_line e.number h)
    ∙ is_plain-in_line (low e.number) (b':' ∷ e.body) (low-in_line e.number h)
    ∙ plain

-- An entry is a block of its own.
blocks-header :
    (block text : List ℕ)
    → is_some (header (b'P' ∷ text)) ≡ true
    → blocks true block (b'P' ∷ text) ≡ block ∷ blocks false (b'P' ∷ []) text
unfolding blocks
blocks-header block text h = rw (blocks, h) refl

blocks-entry :
    (e : Entry) (block rest : List ℕ)
    → IsEntry e
    → blocks true block (entry_text e ++ rest) ≡ block ∷ blocks true (entry_text e) rest
unfolding starts_line
blocks-entry e block rest w =
    blocks-header block (behind e ++ rest) (rw (header-entry e rest w.0) refl)
    ∙ ap (λ bs. block ∷ bs)
        (blocks-plain false (b'P' ∷ []) (behind e) rest (is_plain-behind e w)
          ∙ ap (λ b. blocks b (entry_text e) rest) w.2)

-- What is printed of the ports, in order.
unfoldable pub table_text : List Entry → List ℕ
table_text [] = []
table_text (e ∷ es) = entry_text e ++ table_text es

abbrev pub AreEntries : List Entry → Type 0
AreEntries [] = Unit
AreEntries (e ∷ es) = IsEntry e × AreEntries es

abbrev entry_texts : List Entry → List (List ℕ)
entry_texts = map entry_text

blocks-table :
    (es : List Entry) (block : List ℕ)
    → AreEntries es
    → blocks true block (table_text es) ≡ block ∷ entry_texts es
unfolding table_text blocks
blocks-table [] block w = refl
blocks-table (e ∷ es) block (w, ws) =
    blocks-entry e block (table_text es) w
    ∙ ap (λ bs. block ∷ bs) (blocks-table es (entry_text e) ws)

-- The first port whose text names the device.
unfoldable pub first_named : String → List Entry → Option String
first_named identity [] = none
first_named identity (e ∷ es) =
    if names_device identity (entry_text e) then some (show e.number) else first_named identity es

find_header-here :
    (c : ℕ) (s : List ℕ) (n : ℕ) → header (c ∷ s) ≡ some n → find_header true (c ∷ s) ≡ some n
unfolding find_header
find_header-here c s n h = rw (find_header, h) refl

find_header-entry : (e : Entry) → e.number < 100 → find_header true (entry_text e) ≡ some e.number
unfolding find_header
find_header-entry e h =
    let found : header (entry_text e) ≡ some e.number =
      ap header (sym (append-nil (entry_text e))) ∙ header-entry e [] h in
    find_header-here _ (behind e) e.number found

first_port-entries :
    (identity : String) (es : List Entry)
    → AreEntries es
    → first_port identity (entry_texts es) ≡ first_named identity es
unfolding first_port first_named
first_port-entries identity [] w = refl
first_port-entries identity (e ∷ es) (w, ws) =
    rw (find_header-entry e w.0, first_port-entries identity es ws) refl

first_port-plain :
    (identity : String) (before : List ℕ) (bs : List (List ℕ))
    → is_plain true before ≡ true
    → first_port identity (before ∷ bs) ≡ first_port identity bs
unfolding first_port
first_port-plain identity before bs h = elim (Bool-cases (names_device identity before)) [
  | inl named ↦ rw (named, find_header-plain true before h) refl
  | inr unnamed ↦ rw unnamed refl
]

-- Where the output of usbip port is whole lines none of which starts with P, and then one entry for
-- each port, with a number below 100 in two digits and a body of whole lines none of which starts
-- with P, parse_ports finds the number of the first entry whose text names the device.
pub parse_ports-table :
    (identity output : String) (before : List ℕ) (es : List Entry)
    → is_plain true before ≡ true
    → starts_line true before ≡ true
    → AreEntries es
    → codes output ≡ before ++ table_text es
    → parse_ports identity output ≡ first_named identity es
unfolding parse_ports
parse_ports-table identity output before es plain whole ws printed =
    ap (λ text. first_port identity (blocks true [] text)) printed
    ∙ ap (first_port identity) (blocks-plain true [] before (table_text es) plain)
    ∙ ap (λ b. first_port identity (blocks b before (table_text es))) whole
    ∙ ap (first_port identity) (blocks-table es before ws)
    ∙ first_port-plain identity before (entry_texts es) plain
    ∙ first_port-entries identity es ws
