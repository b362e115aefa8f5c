-- ===== src/Platform/Ports/Lines.antt =====
-- The parts of the output of `usbip port` in which `find_usbip_port` sees no header.
use canokey_usbip.Prelude.{
  ◌≡◌, refl, ap, sym, ◌∙◌, ℕ, Bool, true, false, not, ◌&&◌, none, List, [], ◌∷◌, ◌++◌, arith, eqb,
}
use mathlib.Core.List.{append_assoc, append-nil}
use canokey_usbip.Text.Match.{strip_prefix}
use canokey_usbip.Platform.Ports.{header, blocks, find_header}

-- Text in which no line starts with P; the flag says whether a line starts here.
unfoldable pub is_plain : Bool → List ℕ → Bool
is_plain starts [] = true
is_plain false (c ∷ s) = is_plain (eqb c b'\n') s
is_plain true (c ∷ s) = not (eqb c b'P') && is_plain (eqb c b'\n') s

-- Whether a line starts behind the text.
unfoldable pub starts_line : Bool → List ℕ → Bool
starts_line starts [] = starts
starts_line starts (c ∷ s) = starts_line (eqb c b'\n') s

header-other : (c : ℕ) (s : List ℕ) → eqb c b'P' ≡ false → header (c ∷ s) ≡ none
unfolding header strip_prefix
header-other c s h = let other : eqb b'P' c ≡ false = ground arith in rw other refl

blocks-step :
    (block : List ℕ) (c : ℕ) (text : List ℕ)
    → eqb c b'P' ≡ false
    → blocks true block (c ∷ text) ≡ blocks (eqb c b'\n') (block ++ (c ∷ [])) text
unfolding blocks
blocks-step block c text h = rw (blocks, header-other c text h) refl

pub blocks-plain :
    (starts : Bool) (block s rest : List ℕ)
    → is_plain starts s ≡ true
    → blocks starts block (s ++ rest) ≡ blocks (starts_line starts s) (block ++ s) rest
unfolding is_plain starts_line blocks
blocks-plain starts block [] rest h = ap (λ b. blocks starts b rest) (sym (append-nil block))
blocks-plain false block (c ∷ s) rest h =
    blocks-plain (eqb c b'\n') (block ++ (c ∷ [])) s rest h
    ∙ ap (λ b. blocks (starts_line (eqb c b'\n') s) b rest) (append_assoc block (c ∷ []) s)
blocks-plain true block (c ∷ s) rest h =
    let other : eqb c b'P' ≡ false = ground arith in
    let more : is_plain (eqb c b'\n') s ≡ true = ground arith in
    blocks-step block c (s ++ rest) other
    ∙ blocks-plain (eqb c b'\n') (block ++ (c ∷ [])) s rest more
    ∙ ap (λ b. blocks (starts_line (eqb c b'\n') s) b rest) (append_assoc block (c ∷ []) s)

find_header-later :
    (c : ℕ) (s : List ℕ)
    → header (c ∷ s) ≡ none
    → find_header true (c ∷ s) ≡ find_header (eqb c b'\n') s
unfolding find_header
find_header-later c s h = rw (find_header, h) refl

pub find_header-plain :
    (starts : Bool) (s : List ℕ) → is_plain starts s ≡ true → find_header starts s ≡ none
unfolding find_header is_plain
find_header-plain starts [] h = refl
find_header-plain false (c ∷ s) h = find_header-plain (eqb c b'\n') s h
find_header-plain true (c ∷ s) h =
    let other : eqb c b'P' ≡ false = ground arith in
    let more : is_plain (eqb c b'\n') s ≡ true = ground arith in
    find_header-later c s (header-other c s other) ∙ find_header-plain (eqb c b'\n') s more
