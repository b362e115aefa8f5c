-- ===== src/Options/Parse.antt =====
-- What the parsed options guarantee to the harness.
use mathlib.Core.List.{append-nil, append_assoc}
use canokey_usbip.Prelude.{
  Bool-cases, inl, inr, sym, ap, ◌==◌, ◌<◌, String, ◌≡◌, refl, ◌∙◌, true, ◌||◌, List, [], ◌∷◌, ◌++◌,
  map, arith, contains, contains-append, fresh, from_keys, insert, update, eq_iff, pos,
  if◌then◌else◌,
}
use canokey_usbip.Host.{FilePath, History, Env, ok, pure, raise, raise_if, ◌>>=◌}
use canokey_usbip.Host.Calls.{resolve, utc_now}
use canokey_usbip.Options.{Arguments, Options, is_given, parse_args}

abbrev keys : List (String × Unit {0}) → List String
keys d = map (λ (k, _). k) d

keys-insert :
    (k : String) (d : List (String × Unit {0}))
    → keys (insert k tt d) ≡ (if contains (keys d) k then keys d else keys d ++ (k ∷ []))
keys-insert k [] = refl
keys-insert k ((j, v) ∷ d) = ground (arith, keys-insert k d, eq_iff j k)

fresh_congr :
    (seen seen' xs : List String)
    → ((x : String) → contains seen x ≡ contains seen' x)
    → fresh seen xs ≡ fresh seen' xs
fresh_congr seen seen' [] same = refl
fresh_congr seen seen' (x ∷ xs) same = ground (
  arith,
  same x,
  fresh_congr seen seen' xs same,
  fresh_congr (x ∷ seen) (x ∷ seen') xs (λ y. ap (λ b. x == y || b) (same y)),
)

keys-update :
    (xs : List String) (d : List (String × Unit {0}))
    → keys (update d (map (λ k. (k, tt)) xs)) ≡ keys d ++ fresh (keys d) xs
keys-update [] d = sym (append-nil (keys d))
keys-update (x ∷ xs) d = elim (Bool-cases (contains (keys d) x)) [
  | inl old ↦ rw (keys-update xs (insert x tt d), keys-insert x d, old)
  | inr new ↦
      rw (keys-update xs (insert x tt d), keys-insert x d, new)
        (append_assoc (keys d) (x ∷ []) _
          ∙ ap (λ l. keys d ++ (x ∷ l))
              (fresh_congr _ _ xs (λ y. ground (arith, contains-append (keys d) (x ∷ []) y))))
]

pub from_keys-eq-fresh : (xs : List String) → from_keys xs ≡ fresh [] xs
from_keys-eq-fresh xs = keys-update xs []

module _ ⦃host : Env⦄ (repo_dir : FilePath) (args : Arguments) (t : History) where
  -- Options that are accepted carry the timeout that was asked for, which is positive; a test command
  -- unless only a build is asked for; and the first occurrences of the readiness requirements.
  pub parse_args-accepted :
      (o : Options)
      → (parse_args repo_dir args tt t).0 ≡ ok o
      → (0 < o.timeout)
        × ((o.build_only || is_given o.test_command) ≡ true)
        × (pos o.timeout ≡ args.timeout)
        × (o.readiness_requirements ≡ fresh [] args.readiness_requirements)
  unfolding parse_args ◌>>=◌ pure raise_if resolve utc_now raise
  parse_args-accepted o h = ground (arith, from_keys-eq-fresh args.readiness_requirements)
