-- ===== src/Control/Stop.antt =====
-- `stop_pid` and `wait_reader_removed`.
use canokey_usbip.Prelude.{
  ℕ, zero, suc, String, ◌<>◌, Bool, true, false, not, ◌&&◌, Option, none, some, List, [], ◌∷◌, ◌++◌,
  ℤ, pos, negsuc, eqb, is_empty, contains, show, ◌==◌, if◌then◌else◌,
}
use canokey_usbip.Host.{
  Json, sigterm, sigkill, Env, Exc, os_error, other_os, process_lookup, runtime_error, type_error,
  Exec, pure, raise, catch, ◌>>=◌, ◌>>◌,
}
use canokey_usbip.Host.Calls.{exists, read_text, killpg, probe}
use canokey_usbip.Host.Polling.{Probe, stop, go_on, Waited, found, expired, poll_for}
use canokey_usbip.Text.Strip.{is_space}
use canokey_usbip.Text.Match.{codes}
use canokey_usbip.Platform.{pcsc_readers}
use canokey_usbip.Harness.{pass_gone_or_foreign}

finished : List ℕ → List (List ℕ) → List (List ℕ)
finished [] words = words
finished (c ∷ cs) words = (c ∷ cs) ∷ words

-- text.split(), with the word that is being read.
unfoldable pub split_words : List ℕ → List ℕ → List (List ℕ)
unfolding finished
split_words word [] = finished word []
split_words word (c ∷ text) = elim (is_space c) [
  | true ↦ finished word (split_words [] text)
  | false ↦ split_words (word ++ (c ∷ [])) text
]

-- words[2] == "Z"; a line with fewer words is an IndexError, which is passed over.
unfoldable pub third_is_z : List (List ℕ) → Bool
third_is_z (pid ∷ name ∷ (c ∷ []) ∷ words) = eqb c b'Z'
third_is_z _ = false

-- The pid of `state.get("pid")`, 0 for a value that counts as false.
unfoldable pub pid_of : {S : Type 0} → Option Json → Exec S ℤ
pid_of none = pure (pos 0)
pid_of (some Json.null) = pure (pos 0)
pid_of (some (Json.num n)) = pure n
pid_of (some (Json.bool b)) = pure (if b then pos 1 else pos 0)
pid_of (some (Json.str s)) =
    if s == ""
    then pure (pos 0)
    else raise (type_error "object cannot be interpreted as an integer")
pid_of (some (Json.strs xs)) =
    if is_empty xs
    then pure (pos 0)
    else raise (type_error "object cannot be interpreted as an integer")
pid_of (some (Json.table flags lists)) =
    if is_empty flags && is_empty lists
    then pure (pos 0)
    else raise (type_error "object cannot be interpreted as an integer")

-- readers is not None and reader not in readers
unfoldable pub is_removed : String → Option (List String) → Bool
is_removed reader none = false
is_removed reader (some readers) = not (contains readers reader)

module _ ⦃host : Env⦄ {S : Type 0} where
  -- except (OSError, IndexError): pass
  unfoldable pub not_a_zombie : Exc → Exec S Bool
  not_a_zombie (os_error k m) = pure false
  not_a_zombie e = raise e

  -- The process has ended and waits for its parent.
  unfoldable pub is_zombie : ℕ → Exec S Bool
  unfolding split_words third_is_z not_a_zombie
  is_zombie pid =
      catch
        (do
          present ← exists ("/proc/" <> (show pid <> "/stat"))
          if not present then pure false else (do
            line ← read_text ("/proc/" <> (show pid <> "/stat"))
            pure (third_is_z (split_words [] (codes line)))))
        not_a_zombie

  unfoldable pub gone : Exc → Exec S (Probe (Unit {0}) (Unit {0}))
  gone (os_error process_lookup m) = pure (stop tt)
  gone e = raise e

  -- The body of the loop.
  unfoldable pub check_ended : ℕ → Unit {0} → Exec S (Probe (Unit {0}) (Unit {0}))
  unfolding is_zombie gone
  check_ended pid _ = do
    zombie ← is_zombie pid
    if zombie then pure (stop tt) else catch (do probe pid; pure (go_on tt)) gone

  unfoldable pub kill_late : ℕ → Waited (Unit {0}) (Unit {0}) → Exec S (Unit {0})
  unfolding pass_gone_or_foreign
  kill_late pid (found _) = pure tt
  kill_late pid (expired _) = catch (killpg pid sigkill) pass_gone_or_foreign

  unfoldable pub await_end : ℕ → Exec S (Unit {0})
  unfolding check_ended kill_late
  await_end pid = do result ← poll_for 5000 100 tt (check_ended pid); kill_late pid result

  -- except ProcessLookupError: return
  unfoldable pub already_gone : Exc → Exec S Bool
  already_gone (os_error process_lookup m) = pure false
  already_gone e = raise e

  unfoldable pub stop_pid : ℤ → Exec S (Unit {0})
  unfolding already_gone await_end
  stop_pid (pos zero) = pure tt
  stop_pid (pos (suc n)) = do
    signalled ← catch (do killpg (suc n) sigterm; pure true) already_gone
    if signalled then await_end (suc n) else pure tt
  stop_pid (negsuc n) = raise (os_error other_os "Invalid argument")

  unfoldable pub check_removed : String → Unit {0} → Exec S (Probe (Unit {0}) (Unit {0}))
  unfolding is_removed
  check_removed reader _ = do
    readers ← pcsc_readers
    pure (if is_removed reader readers then stop tt else go_on tt)

  unfoldable pub removed_or_timeout : String → Waited (Unit {0}) (Unit {0}) → Exec S (Unit {0})
  removed_or_timeout reader (found _) = pure tt
  removed_or_timeout reader (expired _) =
      raise (runtime_error ("PC/SC reader did not disappear after detach: " <> reader))

  unfoldable pub wait_reader_removed : String → Exec S (Unit {0})
  unfolding check_removed removed_or_timeout
  wait_reader_removed reader = do
    result ← poll_for 10000 100 tt (check_removed reader)
    removed_or_timeout reader result
