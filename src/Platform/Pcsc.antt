-- ===== src/Platform/Pcsc.antt =====
-- `pcsc_readers`: the readers that PC/SC lists, `none` where it is not available.
use canokey_usbip.Prelude.{
  ℕ, ◌%◌, String, ◌<>◌, not, Option, none, some, List, [], ◌∷◌, ◌++◌, map, eqb, is_empty, keep,
  show_hex_wide, if◌then◌else◌,
}
use canokey_usbip.Host.{Env, pcsc_query_error, Exec, pure, raise_if, finally, ◌>>=◌, ◌>>◌}
use canokey_usbip.Host.Calls.{
  find_pcsclite, load_pcsclite, establish, list_length, list_buffer, release,
}
use canokey_usbip.Platform.State.{no_readers_available}

-- status & 0xFFFFFFFF
abbrev pub masked : ℕ → ℕ
masked status = status % 0x1_0000_0000

-- raw.split(b"\0"), without the empty items
unfoldable pub split_readers : List ℕ → List ℕ → List (List ℕ)
split_readers item [] = item ∷ []
split_readers item (c ∷ raw) =
    if eqb c 0 then item ∷ split_readers [] raw else split_readers (item ++ (c ∷ [])) raw

module _ ⦃host : Env⦄ {S : Type 0} where
  -- The second list call, for a buffer of the length that the first one gave.
  unfoldable pub read_readers : ℕ → Exec S (List String)
  unfolding split_readers
  read_readers length = do
    (status, raw) ← list_buffer length
    raise_if (not (eqb (masked status) 0)) (
        pcsc_query_error
          ("SCardListReaders buffer query failed: 0x" <> show_hex_wide 8 (masked status)))
    pure (map host.decode (keep (λ item. not (is_empty item)) (split_readers [] raw)))

  -- The body of the `try` block: its context is established.
  unfoldable pub list_readers : Exec S (List String)
  unfolding read_readers
  list_readers = do
    (status, length) ← list_length
    if eqb (masked status) no_readers_available then pure [] else do
      raise_if (not (eqb (masked status) 0))
          (pcsc_query_error ("SCardListReaders failed: 0x" <> show_hex_wide 8 (masked status)))
      if eqb length 0 then pure [] else read_readers length

  unfoldable pub query_readers : Exec S (Option (List String))
  unfolding list_readers
  query_readers = do
    status ← establish
    raise_if (not (eqb (masked status) 0))
        (pcsc_query_error ("SCardEstablishContext failed: 0x" <> show_hex_wide 8 (masked status)))
    readers ← finally list_readers release
    pure (some readers)

  unfoldable pub pcsc_readers : Exec S (Option (List String))
  unfolding query_readers
  pcsc_readers = do
    found ← find_pcsclite
    if not found
        then pure none
        else do loads ← load_pcsclite; if not loads then pure none else query_readers
