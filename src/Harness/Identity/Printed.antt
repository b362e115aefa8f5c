-- ===== src/Harness/Identity/Printed.antt =====
-- A C header that prints two ids, and what `parse_identity` reads in it.
use text.Mathlib.TextLemmas.{nil-append, cons-append}
use Prim.Native.Char.{code}
use canokey_usbip.Prelude.{
  ◌≡◌, refl, ap, ℕ, ◌+◌, ◌/◌, ◌%◌, ◌<◌, String, ◌<>◌, Bool, true, false, none, some, List, [], ◌∷◌,
  ◌++◌, arith, leb, eqb, show_hex_wide, digit, false, not, ◌&&◌, ◌∙◌, if◌then◌else◌, ◌-◌,
}
use canokey_usbip.Host.{History, ok, pure, ◌>>=◌, continue}
use canokey_usbip.Text.Match.{is_digit, codes, span, strip_prefix}
use canokey_usbip.Harness.Identity.{
  Number, value, is_hex, hex_value, skip_spaces, skip_some_spaces, match_hex, match_literal,
  match_define, search_define, hex4, defined, read_define, parse_identity,
}

codes-append : (a b : String) → codes (a <> b) ≡ codes a ++ codes b
codes-append String.[] b = rw (nil-append b) refl
codes-append (String.◌∷◌ c a) b = rw (cons-append c a b) (ap (λ l. code c ∷ l) (codes-append a b))

codes-if : (b : Bool) (x y : String) → codes (if b then x else y) ≡ (if b then codes x else codes y)
codes-if true x y = refl
codes-if false x y = refl

-- The code of a digit, and what it stands for.
digit_code : ℕ → ℕ
digit_code d = if leb d 9 then 48 + d else 87 + d

codes-digit : (d : ℕ) → d < 16 → codes (digit d) ≡ digit_code d ∷ []
unfolding digit digit_code
codes-digit d h =
    rw
      (
        codes-if (eqb d 0),
        codes-if (eqb d 1),
        codes-if (eqb d 2),
        codes-if (eqb d 3),
        codes-if (eqb d 4),
        codes-if (eqb d 5),
        codes-if (eqb d 6),
        codes-if (eqb d 7),
        codes-if (eqb d 8),
        codes-if (eqb d 9),
        codes-if (eqb d 10),
        codes-if (eqb d 11),
        codes-if (eqb d 12),
        codes-if (eqb d 13),
        codes-if (eqb d 14),
      )
      (ground arith)

is_hex-digit_code : (d : ℕ) → d < 16 → is_hex (digit_code d) ≡ true
unfolding digit_code
is_hex-digit_code d h = ground arith

-- What a digit adds.
weight : ℕ → ℕ
weight c = if is_digit c then c - 48 else if leb b'a' c then c - 87 else c - 55

weight-digit_code : (d : ℕ) → d < 16 → weight (digit_code d) ≡ d
unfolding digit_code weight
weight-digit_code d h = ground arith

digit_code-IsInLine : (d : ℕ) → d < 16 → eqb (digit_code d) b'\n' ≡ false
unfolding digit_code
digit_code-IsInLine d h = ground arith

-- The four digits of a number of sixteen bits.
abbrev hex_codes : ℕ → List ℕ
hex_codes n =
    digit_code (n / 16 / 16 / 16 % 16)
    ∷ digit_code (n / 16 / 16 % 16)
    ∷ digit_code (n / 16 % 16)
    ∷ digit_code (n % 16)
    ∷ []

below : (n : ℕ) → n % 16 < 16
below n = omega arith

hex4-codes : (n : ℕ) → n < 65536 → codes (hex4 n) ≡ hex_codes n
unfolding hex4 show_hex_wide
hex4-codes n h =
    let high : n / 16 / 16 / 16 / 16 ≡ 0 = omega arith in
    rw high (simp (codes-append, codes-digit, below))

hex_value-hex_codes : (n : ℕ) → n < 65536 → hex_value 0 (hex_codes n) ≡ n
unfolding hex_value weight
hex_value-hex_codes n h =
    let top = weight-digit_code (n / 16 / 16 / 16 % 16) (below _) in
    let next = weight-digit_code (n / 16 / 16 % 16) (below _) in
    let low = weight-digit_code (n / 16 % 16) (below _) in
    let last = weight-digit_code (n % 16) (below _) in rw (top, next, low, last) (omega arith)

span-four :
    (p : ℕ → Bool) (a b c d e : ℕ) (s : List ℕ)
    → p a ≡ true
    → p b ≡ true
    → p c ≡ true
    → p d ≡ true
    → p e ≡ false
    → span p (a ∷ b ∷ c ∷ d ∷ e ∷ s) ≡ (a ∷ b ∷ c ∷ d ∷ [], e ∷ s)
unfolding span
span-four p a b c d e s ha hb hc hd he = rw (ha, hb, hc, hd, he) refl

-- A line of the header: up to the digits, the digits, and what follows.
abbrev line_of : String → ℕ → List ℕ → List ℕ
line_of start n rest = codes start ++ (hex_codes n ++ (b'\n' ∷ rest))

span-hex_codes :
    (n : ℕ) (rest : List ℕ)
    → span is_hex (hex_codes n ++ (b'\n' ∷ rest)) ≡ (hex_codes n, b'\n' ∷ rest)
span-hex_codes n rest =
    let hex = λ (m : ℕ). is_hex-digit_code (m % 16) (below m) in
    span-four is_hex _ _ _ _ b'\n' rest (hex _) (hex _) (hex _) (hex _) refl

match_hex-hex_codes :
    (n : ℕ) (rest : List ℕ)
    → n < 65536
    → match_hex (span is_hex (hex_codes n ++ (b'\n' ∷ rest))) ≡ some (value n)
unfolding match_hex
match_hex-hex_codes n rest h =
    rw (span-hex_codes n rest) (ap (λ m. some (value m)) (hex_value-hex_codes n h))

match_define-vid :
    (n : ℕ) (rest : List ℕ)
    → n < 65536
    → match_define "USBD_VID" (line_of "#define USBD_VID 0x" n rest) ≡ some (value n)
unfolding match_define skip_spaces skip_some_spaces match_literal strip_prefix span
match_define-vid n rest h = match_hex-hex_codes n rest h

match_define-pid :
    (n : ℕ) (rest : List ℕ)
    → n < 65536
    → match_define "USBD_PID" (line_of "#define USBD_PID 0x" n rest) ≡ some (value n)
unfolding match_define skip_spaces skip_some_spaces match_literal strip_prefix span
match_define-pid n rest h = match_hex-hex_codes n rest h

search_define-here :
    (name : String) (c : ℕ) (text : List ℕ) (m : Number)
    → match_define name (c ∷ text) ≡ some m
    → search_define name true (c ∷ text) ≡ some m
unfolding search_define
search_define-here name c text m e = rw (search_define, e) refl

search_define-later :
    (name : String) (c : ℕ) (text : List ℕ)
    → match_define name (c ∷ text) ≡ none
    → search_define name true (c ∷ text) ≡ search_define name (eqb c b'\n') text
unfolding search_define
search_define-later name c text e = rw (search_define, e) refl

is_in_line : List ℕ → Bool
is_in_line [] = true
is_in_line (c ∷ s) = not (eqb c b'\n') && is_in_line s

-- What is left of a line is passed over.
search_define-rest :
    (name : String) (s rest : List ℕ)
    → is_in_line s ≡ true
    → search_define name false (s ++ (b'\n' ∷ rest)) ≡ search_define name true rest
unfolding search_define is_in_line
search_define-rest name [] rest h = refl
search_define-rest name (c ∷ s) rest h =
    let here : eqb c b'\n' ≡ false = ground arith in
    let more : is_in_line s ≡ true = ground arith in
    ap (λ b. search_define name b (s ++ (b'\n' ∷ rest))) here ∙ search_define-rest name s rest more

hex_codes-in_line : (n : ℕ) → is_in_line (codes "define USBD_VID 0x" ++ hex_codes n) ≡ true
unfolding is_in_line
hex_codes-in_line n = simp (digit_code-IsInLine, below)

match_define-other :
    (n : ℕ) (rest : List ℕ) → match_define "USBD_PID" (line_of "#define USBD_VID 0x" n rest) ≡ none
unfolding match_define skip_spaces skip_some_spaces strip_prefix span
match_define-other n rest = refl

search_define-pid :
    (n : ℕ) (rest : List ℕ)
    → search_define "USBD_PID" true (line_of "#define USBD_VID 0x" n rest)
      ≡ search_define "USBD_PID" true rest
search_define-pid n rest =
    search_define-later "USBD_PID" _ _ (match_define-other n rest)
    ∙ search_define-rest "USBD_PID" (codes "define USBD_VID 0x" ++ hex_codes n) rest
        (hex_codes-in_line n)

-- The text of the header.
abbrev pub header : ℕ → ℕ → String
header vid pid =
    "#define USBD_VID 0x" <> (hex4 vid <> ("\n#define USBD_PID 0x" <> (hex4 pid <> "\n")))

codes-header :
    (vid pid : ℕ)
    → vid < 65536
    → pid < 65536
    → codes (header vid pid)
      ≡ line_of "#define USBD_VID 0x" vid (line_of "#define USBD_PID 0x" pid [])
codes-header vid pid hv hp = simp (codes-append, hex4-codes vid hv, hex4-codes pid hp)

module _ {S : Type 0} where
  parsed :
      (descriptor content : String) (vid pid : ℕ) (s : S) (t : History)
      → search_define "USBD_VID" true (codes content) ≡ some (value vid)
      → search_define "USBD_PID" true (codes content) ≡ some (value pid)
      → parse_identity descriptor content s t ≡ (ok (hex4 vid, hex4 pid), s, t)
  unfolding parse_identity read_define defined ◌>>=◌ continue pure
  parsed descriptor content vid pid s t v p = rw (v, p) refl

  -- A header that defines the two ids, each of sixteen bits, by what hex4 prints of them, is read back as
  -- what hex4 prints of them.
  pub parse_identity-header :
      (descriptor : String) (vid pid : ℕ) (s : S) (t : History)
      → vid < 65536
      → pid < 65536
      → parse_identity descriptor (header vid pid) s t ≡ (ok (hex4 vid, hex4 pid), s, t)
  parse_identity-header descriptor vid pid s t hv hp =
      let text = codes-header vid pid hv hp in
      parsed descriptor (header vid pid) vid pid s t
        (rw text (search_define-here "USBD_VID" _ _ _ (match_define-vid vid _ hv)))
        (rw text (
          search_define-pid vid (line_of "#define USBD_PID 0x" pid [])
          ∙ search_define-here "USBD_PID" _ _ _ (match_define-pid pid [] hp)))
