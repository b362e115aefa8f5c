-- ===== src/Text/Match.antt =====
-- Matching over code points: prefixes, substrings, digits, line starts.
use Prim.Native.Char.{code}
use canokey_usbip.Prelude.{
  ltb, map, ℕ, ◌+◌, ◌-◌, ◌*◌, String, Bool, true, false, ◌&&◌, ◌||◌, Option, none, some, List, [],
  ◌∷◌, leb, eqb, if◌then◌else◌,
}

-- The code points of a text.
abbrev pub codes : String → List ℕ
codes String.[] = []
codes (String.◌∷◌ c s) = code c ∷ codes s

abbrev pub is_digit : ℕ → Bool
is_digit c = leb b'0' c && leb c b'9'

abbrev pub to_lower : ℕ → ℕ
to_lower c = if leb b'A' c && leb c b'Z' then c + 32 else c

-- The rest behind a prefix.
unfoldable pub strip_prefix : List ℕ → List ℕ → Option (List ℕ)
strip_prefix [] s = some s
strip_prefix (p ∷ ps) [] = none
strip_prefix (p ∷ ps) (c ∷ s) = if eqb p c then strip_prefix ps s else none

unfoldable pub is_prefix : List ℕ → List ℕ → Bool
is_prefix [] s = true
is_prefix (p ∷ ps) [] = false
is_prefix (p ∷ ps) (c ∷ s) = eqb p c && is_prefix ps s

-- needle in text
unfoldable pub has_part : List ℕ → List ℕ → Bool
unfolding is_prefix
has_part needle [] = is_prefix needle []
has_part needle (c ∷ s) = is_prefix needle (c ∷ s) || has_part needle s

-- The longest prefix of elements that pass the test, and the rest.
unfoldable pub span : (ℕ → Bool) → List ℕ → List ℕ × List ℕ
span p [] = ([], [])
span p (c ∷ s) = let (xs, rest) = span p s in if p c then (c ∷ xs, rest) else ([], c ∷ s)

-- int(digits), for decimal digits.
unfoldable pub decimal : ℕ → List ℕ → ℕ
decimal n [] = n
decimal n (c ∷ s) = decimal (n * 10 + (c - 48)) s

unfoldable pub lex_lt : List ℕ → List ℕ → Bool
lex_lt s [] = false
lex_lt [] (d ∷ t) = true
lex_lt (c ∷ s) (d ∷ t) = ltb c d || (eqb c d && lex_lt s t)

-- p < q, for paths: part by part, so a slash comes before every other character.
unfoldable pub path_lt : String → String → Bool
unfolding lex_lt
path_lt p q =
    let key = λ (s : String). map (λ c. if eqb c b'/' then 0 else c) (codes s) in
    lex_lt (key p) (key q)
