-- ===== src/Prelude/Sets.antt =====
-- Lists without repetitions: the first occurrences of a list's elements, as a set or the keys of a
-- dict keep them.
use mathlib.Core.Path.{◌≡◌, refl}
use mathlib.Core.Bool.{Bool, true, false, not, ◌&&◌}
use mathlib.Core.List.{List, [], ◌∷◌, map}
use native.Mathlib.Omega.{arith}
use Prim.Native.String.{String, compare}
use Prim.Native.Nat.{Ordering}
use text.Mathlib.TextEquality.{eq_iff}
use canokey_usbip.Prelude.Tests.{if◌then◌else◌}
use canokey_usbip.Prelude.Lists.{contains, update}

-- The elements that are not seen before, each where it first stands.
abbrev pub fresh : List String → List String → List String
fresh seen [] = []
fresh seen (k ∷ ks) =
    if contains seen k then fresh seen ks else (let rest = fresh (k ∷ seen) ks in k ∷ rest)

-- `fresh` is the list without its repetitions.
pub contains-fresh :
    (seen ks : List String) (k : String)
    → contains (fresh seen ks) k ≡ (contains ks k && not (contains seen k))
contains-fresh seen [] k = refl
contains-fresh seen (j ∷ ks) k =
    ground (arith, contains-fresh seen ks k, contains-fresh (j ∷ seen) ks k, eq_iff j k)

abbrev pub HasNoRepeats : List String → Type 0
HasNoRepeats [] = Unit
HasNoRepeats (k ∷ ks) = (contains ks k ≡ false) × HasNoRepeats ks

pub fresh-HasNoRepeats : (seen ks : List String) → HasNoRepeats (fresh seen ks)
fresh-HasNoRepeats seen [] = tt
fresh-HasNoRepeats seen (j ∷ ks) = ground (
  arith,
  fresh-HasNoRepeats seen ks,
  fresh-HasNoRepeats (j ∷ seen) ks,
  contains-fresh (j ∷ seen) ks j,
  eq_iff j j,
)

-- list(dict.fromkeys(xs))
abbrev pub from_keys : List String → List String
from_keys xs = map (λ (k, _). k) (update {V = Unit {0}} [] (map (λ k. (k, tt)) xs))

-- a < b, for texts, by code points.
abbrev pub text_lt : String → String → Bool
text_lt a b = elim (compare a b) [ Ordering.lt ↦ true | _ ↦ false ]

insert_sorted : String → List String → List String
insert_sorted x [] = x ∷ []
insert_sorted x (y ∷ ys) =
    let rest = insert_sorted x ys in if text_lt y x then y ∷ rest else x ∷ (y ∷ ys)

-- sorted(xs)
unfoldable pub sorted : List String → List String
unfolding insert_sorted
sorted [] = []
sorted (x ∷ xs) = insert_sorted x (sorted xs)
