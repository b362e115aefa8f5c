-- ===== src/Host/Machine.antt =====
-- The host: an answer to each call, as a function of the history before it. What is not in src/
-- (the operating system, git, cmake, usbip, PC/SC) is this parameter; nothing is assumed of it but
-- what a theorem names.
use canokey_usbip.Prelude.{ℕ, String, Bool, Option, List, ℤ, ◌+◌, ◌≤◌, ◌∷◌}
use canokey_usbip.Host.Events.{FilePath, Signal, JsonDict, Content, History, Event, sleep}
use canokey_usbip.Host.Errors.{OsError}

-- A call that can fail with an OSError.
pub data Os (A : Type 0) : Type 0 where
  done : A → Os A
  failed : OsError → String → Os A

-- CompletedProcess; stdout and stderr are empty when the output goes to a log.
pub record Completed : Type 0 where
  pub returncode : ℤ
  pub stdout : String
  pub stderr : String

pub data Ran : Type 0 where
  completed : Completed → Ran
  run_failed : OsError → String → Ran
  timed_out : String → Ran

-- json.loads of a file's text: the value, or an error (JSONDecodeError is a ValueError).
pub data Loaded (A : Type 0) : Type 0 where
  loaded : A → Loaded A
  malformed : String → Loaded A
  unreadable : OsError → String → Loaded A

pub record Env : Type 0 where
  pub run : List String → Option FilePath → Option ℕ → Bool → History → Ran
  pub popen : List String → Option FilePath → List (String × String) → History → Os ℕ
  pub poll : ℕ → History → Option ℤ
  -- `none` when the time runs out first
  pub wait : ℕ → ℕ → History → Option ℤ
  pub wait_exit : ℕ → History → ℤ
  pub killpg : ℕ → Signal → History → Os (Unit {0})
  pub kill : ℕ → Signal → History → Os (Unit {0})
  pub probe : ℕ → History → Os (Unit {0})
  -- in milliseconds
  pub monotonic : History → ℕ
  pub utc_now : History → String
  pub exists : FilePath → History → Bool
  pub is_dir : FilePath → History → Bool
  pub is_file : FilePath → History → Bool
  pub resolve : FilePath → History → Os FilePath
  pub glob : FilePath → String → History → List FilePath
  pub read_text : FilePath → History → Os String
  pub read_json : FilePath → History → Loaded JsonDict
  -- the ids and commits of the release mappings in a catalog file
  pub read_mappings : FilePath → History → Loaded (List (String × String))
  pub write_text : FilePath → Content → History → Os (Unit {0})
  pub append_text : FilePath → String → History → Os (Unit {0})
  pub open_log : FilePath → History → Os (Unit {0})
  pub mkdir : FilePath → History → Os (Unit {0})
  pub copytree : FilePath → FilePath → (List String → List String) → History → Os (Unit {0})
  pub flock : FilePath → History → Os (Unit {0})
  pub which : String → History → Bool
  -- the PC/SC library: whether it is found and has its symbols, and its answers: the status words,
  -- the length that the first list call writes, and the bytes that the second one leaves
  pub pcsclite_found : History → Bool
  pub pcsclite_loads : History → Bool
  pub establish : History → ℕ
  pub list_length : History → ℕ × ℕ
  pub list_buffer : ℕ → History → ℕ × List ℕ
  -- bytes.decode(errors="replace")
  pub decode : List ℕ → String
  -- constant while the program runs
  pub euid : ℕ
  pub is_linux : Bool
  pub environ : String → Option String
  pub kernel : String

-- Documented behaviour of time.monotonic and time.sleep: the clock never goes back, and a sleep
-- lasts at least as long as it was asked to.
pub record IsClock (host : Env) : Type 0 where
  pub forward : (e : Event) (t : History) → host.monotonic t ≤ host.monotonic (e ∷ t)
  pub slept : (d : ℕ) (t : History) → host.monotonic t + d ≤ host.monotonic (sleep d ∷ t)
