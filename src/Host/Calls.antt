-- ===== src/Host/Calls.antt =====
-- The calls of the host as actions: each adds its event to the history and takes the host's answer.
use canokey_usbip.Prelude.{ℕ, String, Bool, Option, List, ◌∷◌, ℤ}
use canokey_usbip.Host.Events.{Event, History, FilePath, Signal, JsonDict, Content}
use canokey_usbip.Host.Errors.{os_error, value_error, timeout_expired}
use canokey_usbip.Host.Machine.{
  Env, Os, done, failed, Completed, Ran, completed, run_failed, timed_out, Loaded, loaded,
  malformed, unreadable,
}
use canokey_usbip.Host.Action.{Result, ok, raised, Exec}

abbrev pub of_os : {A : Type 0} → Os A → Result A
of_os (done a) = ok a
of_os (failed k m) = raised (os_error k m)

abbrev pub of_ran : Ran → Result Completed
of_ran (completed c) = ok c
of_ran (run_failed k m) = raised (os_error k m)
of_ran (timed_out m) = raised (timeout_expired m)

abbrev pub of_loaded : {A : Type 0} → Loaded A → Result A
of_loaded (loaded d) = ok d
of_loaded (malformed m) = raised (value_error m)
of_loaded (unreadable k m) = raised (os_error k m)

module _ {S A : Type 0} where
  -- One call: its event, and the answer to it.
  unfoldable pub call : Event → (History → Result A) → Exec S A
  call e answer s t = (answer t, s, e ∷ t)

module _ ⦃host : Env⦄ {S : Type 0} where
  unfoldable pub run : List String → Option FilePath → Option ℕ → Bool → Exec S Completed
  unfolding call
  run argv cwd timeout log =
      call (Event.run argv cwd timeout log) (λ t. of_ran (host.run argv cwd timeout log t))

  unfoldable pub popen : List String → Option FilePath → List (String × String) → Exec S ℕ
  unfolding call
  popen argv cwd added =
      call (Event.popen argv cwd added) (λ t. of_os (host.popen argv cwd added t))

  unfoldable pub poll : ℕ → Exec S (Option ℤ)
  unfolding call
  poll pid = call (Event.poll pid) (λ t. ok (host.poll pid t))

  unfoldable pub wait : ℕ → ℕ → Exec S (Option ℤ)
  unfolding call
  wait pid seconds = call (Event.wait pid seconds) (λ t. ok (host.wait pid seconds t))

  unfoldable pub wait_exit : ℕ → Exec S ℤ
  unfolding call
  wait_exit pid = call (Event.wait_exit pid) (λ t. ok (host.wait_exit pid t))

  unfoldable pub killpg : ℕ → Signal → Exec S (Unit {0})
  unfolding call
  killpg pid sig = call (Event.killpg pid sig) (λ t. of_os (host.killpg pid sig t))

  unfoldable pub kill : ℕ → Signal → Exec S (Unit {0})
  unfolding call
  kill pid sig = call (Event.kill pid sig) (λ t. of_os (host.kill pid sig t))

  unfoldable pub probe : ℕ → Exec S (Unit {0})
  unfolding call
  probe pid = call (Event.probe pid) (λ t. of_os (host.probe pid t))

  unfoldable pub monotonic : Exec S ℕ
  unfolding call
  monotonic = call Event.monotonic (λ t. ok (host.monotonic t))

  unfoldable pub utc_now : Exec S String
  unfolding call
  utc_now = call Event.utc_now (λ t. ok (host.utc_now t))

  unfoldable pub exists : FilePath → Exec S Bool
  unfolding call
  exists p = call (Event.exists p) (λ t. ok (host.exists p t))

  unfoldable pub is_dir : FilePath → Exec S Bool
  unfolding call
  is_dir p = call (Event.is_dir p) (λ t. ok (host.is_dir p t))

  unfoldable pub is_file : FilePath → Exec S Bool
  unfolding call
  is_file p = call (Event.is_file p) (λ t. ok (host.is_file p t))

  unfoldable pub resolve : FilePath → Exec S FilePath
  unfolding call
  resolve p = call (Event.resolve p) (λ t. of_os (host.resolve p t))

  unfoldable pub glob : FilePath → String → Exec S (List FilePath)
  unfolding call
  glob p pattern' = call (Event.glob p pattern') (λ t. ok (host.glob p pattern' t))

  unfoldable pub read_text : FilePath → Exec S String
  unfolding call
  read_text p = call (Event.read_text p) (λ t. of_os (host.read_text p t))

  -- json.loads(path.read_text())
  unfoldable pub read_json : FilePath → Exec S JsonDict
  unfolding call
  read_json p = call (Event.read_text p) (λ t. of_loaded (host.read_json p t))

  unfoldable pub read_mappings : FilePath → Exec S (List (String × String))
  unfolding call
  read_mappings p = call (Event.read_text p) (λ t. of_loaded (host.read_mappings p t))

  unfoldable pub write_text : FilePath → Content → Exec S (Unit {0})
  unfolding call
  write_text p c = call (Event.write_text p c) (λ t. of_os (host.write_text p c t))

  unfoldable pub append_text : FilePath → String → Exec S (Unit {0})
  unfolding call
  append_text p s = call (Event.append_text p s) (λ t. of_os (host.append_text p s t))

  unfoldable pub open_log : FilePath → Exec S (Unit {0})
  unfolding call
  open_log p = call (Event.open_log p) (λ t. of_os (host.open_log p t))

  unfoldable pub mkdir : FilePath → Exec S (Unit {0})
  unfolding call
  mkdir p = call (Event.mkdir p) (λ t. of_os (host.mkdir p t))

  unfoldable pub copytree : FilePath → FilePath → (List String → List String) → Exec S (Unit {0})
  unfolding call
  copytree p q ignore = call (Event.copytree p q ignore) (λ t. of_os (host.copytree p q ignore t))

  unfoldable pub flock : FilePath → Exec S (Unit {0})
  unfolding call
  flock p = call (Event.flock p) (λ t. of_os (host.flock p t))

  unfoldable pub which : String → Exec S Bool
  unfolding call
  which name = call (Event.which name) (λ t. ok (host.which name t))

  -- ctypes.util.find_library("pcsclite")
  unfoldable pub find_pcsclite : Exec S Bool
  unfolding call
  find_pcsclite = call Event.find_pcsclite (λ t. ok (host.pcsclite_found t))

  -- The library and its three functions can be loaded.
  unfoldable pub load_pcsclite : Exec S Bool
  unfolding call
  load_pcsclite = call Event.load_pcsclite (λ t. ok (host.pcsclite_loads t))

  unfoldable pub establish : Exec S ℕ
  unfolding call
  establish = call Event.establish (λ t. ok (host.establish t))

  unfoldable pub list_length : Exec S (ℕ × ℕ)
  unfolding call
  list_length = call Event.list_length (λ t. ok (host.list_length t))

  unfoldable pub list_buffer : ℕ → Exec S (ℕ × List ℕ)
  unfolding call
  list_buffer n = call (Event.list_buffer n) (λ t. ok (host.list_buffer n t))

module _ {S : Type 0} where
  unfoldable pub release : Exec S (Unit {0})
  unfolding call
  release = call Event.release (λ t. ok tt)

  unfoldable pub sleep : ℕ → Exec S (Unit {0})
  unfolding call
  sleep ms = call (Event.sleep ms) (λ t. ok tt)

  -- shutil.rmtree(path, ignore_errors=True)
  unfoldable pub rmtree : FilePath → Exec S (Unit {0})
  unfolding call
  rmtree p = call (Event.rmtree p) (λ t. ok tt)

  unfoldable pub print : String → Exec S (Unit {0})
  unfolding call
  print line = call (Event.print line) (λ t. ok tt)

  unfoldable pub print_error : String → Exec S (Unit {0})
  unfolding call
  print_error line = call (Event.print_error line) (λ t. ok tt)
