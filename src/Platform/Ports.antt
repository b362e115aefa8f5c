-- ===== src/Platform/Ports.antt =====
-- `find_usbip_port`: the port of the device in the output of `usbip port`. The regular expressions
-- ^Port\s+(\d+): are read as a match at the start of a line.
pub mod Lines
pub mod Table
use canokey_usbip.Prelude.{
  ◌≡◌, refl, ℕ, String, ◌<>◌, Bool, true, false, ◌||◌, Option, none, some, List, [], ◌∷◌, ◌++◌, map,
  eqb, is_some, show, if◌then◌else◌,
}
use canokey_usbip.Host.{Env, Exec, pure, gets, ◌>>=◌}
use canokey_usbip.Text.Strip.{is_space}
use canokey_usbip.Text.Match.{codes, is_digit, to_lower, strip_prefix, has_part, span, decimal}
use canokey_usbip.Command.{run_command}
use canokey_usbip.Platform.State.{Platform}

-- \s+ and \d+ take at least one, and here never give one back: what follows them is no such code.
some_of : List ℕ × List ℕ → Option (List ℕ × List ℕ)
some_of ([], rest) = none
some_of (c ∷ cs, rest) = some (c ∷ cs, rest)

abbrev bind_option : {A B : Type 0} → Option A → (A → Option B) → Option B
bind_option none f = none
bind_option (some a) f = f a

colon : List ℕ → List ℕ → Option ℕ
colon digits [] = none
colon digits (c ∷ rest) = if eqb c b':' then some (decimal 0 digits) else none

-- The number of a header at the start of the text.
unfoldable pub header : List ℕ → Option ℕ
unfolding some_of colon
header text = bind_option (strip_prefix (codes "Port") text) λ behind.
    bind_option (some_of (span is_space behind)) λ (spaces, rest).
      bind_option (some_of (span is_digit rest)) λ (digits, rest'). colon digits rest'

-- The text split before each header; the flag says whether a line starts here.
unfoldable pub blocks : Bool → List ℕ → List ℕ → List (List ℕ)
unfolding header
blocks starts block [] = block ∷ []
blocks false block (c ∷ text) = blocks (eqb c b'\n') (block ++ (c ∷ [])) text
blocks true block (c ∷ text) =
    if is_some (header (c ∷ text))
    then block ∷ blocks (eqb c b'\n') (c ∷ []) text
    else blocks (eqb c b'\n') (block ++ (c ∷ [])) text

-- The first header of a block.
unfoldable pub find_header : Bool → List ℕ → Option ℕ
unfolding header
find_header starts [] = none
find_header false (c ∷ text) = find_header (eqb c b'\n') text
find_header true (c ∷ text) =
    let later = find_header (eqb c b'\n') text in
    elim (header (c ∷ text)) [ some n ↦ some n | none ↦ later ]

unfoldable pub names_device : String → List ℕ → Bool
names_device identity block =
    has_part (codes identity) (map to_lower block)
    || has_part (codes "CanoKey") block
    || has_part (codes "1-1") block

unfoldable pub first_port : String → List (List ℕ) → Option String
unfolding find_header names_device
first_port identity [] = none
first_port identity (b ∷ bs) =
    let later = first_port identity bs in
    if names_device identity b
    then elim (find_header true b) [ some n ↦ some (show n) | none ↦ later ]
    else later

unfoldable pub parse_ports : String → String → Option String
unfolding blocks first_port
parse_ports identity output = first_port identity (blocks true [] (codes output))

module _ ⦃host : Env⦄ where
  unfoldable pub find_usbip_port : Exec Platform (Option String)
  find_usbip_port = do
    result ← run_command ("usbip" ∷ "port" ∷ []) none (some 10) false false
    identity ← gets (λ p. p.usb_vid <> (":" <> p.usb_pid))
    pure (parse_ports identity result.stdout)

parse_ports_example :
    parse_ports "20a0:42d4"
      "Imported USB devices\nPort 00: <Port in Use>\n  other (1234:5678)\nPort 02: <Port in Use>\n  x (20A0:42d4)\n"
    ≡ some "2"
unfolding parse_ports show strip_prefix span has_part decimal
parse_ports_example = refl
