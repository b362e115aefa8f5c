-- ===== src/Platform/MultiString.antt =====
-- What `pcsc_readers` reads out of the buffer of SCardListReaders: a PC/SC multi-string is the names, each
-- with a zero byte behind it, and at least one more zero byte; the rest of the buffer is zero too.
use mathlib.Core.List.{append-nil, append_assoc}
use canokey_usbip.Prelude.{
  ℕ, zero, suc, ◌≡◌, refl, ◌∙◌, ap, true, false, not, List, [], ◌∷◌, ◌++◌, map, eqb, is_empty, keep,
  All,
}
use canokey_usbip.Host.{History, Env, ok, pure, raise_if, ◌>>=◌, continue}
use canokey_usbip.Host.Calls.{list_buffer}
use canokey_usbip.Platform.Pcsc.{masked, split_readers, read_readers}

abbrev pub zeros : ℕ → List ℕ
zeros zero = []
zeros (suc n) = 0 ∷ zeros n

-- The names, and n zero bytes.
abbrev pub multi_string : List (List ℕ) → ℕ → List ℕ
multi_string [] n = zeros n
multi_string (name ∷ names) n = name ++ (0 ∷ multi_string names n)

-- A name of a reader: bytes that are not zero, and at least one.
abbrev pub IsName : List ℕ → Type 0
IsName name = (is_empty name ≡ false) × All (λ c. eqb c 0 ≡ false) name

split-name :
    (item name rest : List ℕ)
    → All (λ c. eqb c 0 ≡ false) name
    → split_readers item (name ++ (0 ∷ rest)) ≡ (item ++ name) ∷ split_readers [] rest
unfolding split_readers
split-name item [] rest h = ap (λ l. l ∷ split_readers [] rest) (rw append-nil)
split-name item (c ∷ name) rest h = rw h.0 (
    split-name (item ++ (c ∷ [])) name rest h.1
    ∙ ap (λ l. l ∷ split_readers [] rest) (append_assoc item (c ∷ []) name))

split-zeros : (n : ℕ) → keep (λ item. not (is_empty item)) (split_readers [] (zeros n)) ≡ []
unfolding split_readers
split-zeros zero = refl
split-zeros (suc n) = split-zeros n

split-multi_string :
    (names : List (List ℕ)) (n : ℕ)
    → All IsName names
    → keep (λ item. not (is_empty item)) (split_readers [] (multi_string names n)) ≡ names
split-multi_string [] n h = split-zeros n
split-multi_string (name ∷ names) n h =
    rw (split-name [] name (multi_string names n) h.0.1, h.0.0)
      (ap (λ l. name ∷ l) (split-multi_string names n h.1))

-- Where the second list call works and leaves a multi-string, the readers are its names, in order and
-- decoded.
pub read_readers-multi_string :
    ⦃host : Env⦄
    → {S : Type 0} (names : List (List ℕ)) (n length status : ℕ) (s : S) (t : History)
    → All IsName names
    → host.list_buffer length t ≡ (status, multi_string names n)
    → eqb (masked status) 0 ≡ true
    → (read_readers length s t).0 ≡ ok (map host.decode names)
unfolding read_readers list_buffer raise_if pure ◌>>=◌ continue
read_readers-multi_string names n length status s t h answer fine =
    rw (answer, fine, split-multi_string names n h)
