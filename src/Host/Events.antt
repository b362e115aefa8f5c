-- ===== src/Host/Events.antt =====
-- The calls that leave the program, with the arguments that matter, and the values they carry.
use canokey_usbip.Prelude.{ℕ, String, ◌<>◌, Bool, Option, List}
use canokey_usbip.Prelude.{ℤ}

abbrev pub FilePath : Type 0
FilePath = String

-- `directory / name`, for a relative name.
unfoldable pub join : FilePath → String → FilePath
join directory name = directory <> ("/" <> name)

pub data Signal : Type 0 where
  sigterm sigkill sigint : Signal

-- The values that the program writes as JSON: scalars and lists of texts.
pub data Json : Type 0 where
  null : Json
  bool : Bool → Json
  num : ℤ → Json
  str : String → Json
  strs : List String → Json
  -- a dict of flags and of lists of texts
  table : List (String × Bool) → List (String × List String) → Json

-- A dict whose values are such values.
abbrev pub JsonDict : Type 0
JsonDict = List (String × Json)

-- The text of a file: plain, or the JSON text of a dict.
pub data Content : Type 0 where
  text : String → Content
  json : JsonDict → Content

pub data Event : Type 0 where
  -- subprocess.run(argv, cwd, timeout in seconds); the flag says whether the output goes to a log
  run : List String → Option FilePath → Option ℕ → Bool → Event
  -- subprocess.Popen(argv, cwd, start_new_session=True), with what is added to the environment
  popen : List String → Option FilePath → List (String × String) → Event
  -- process.poll(), process.wait(timeout in seconds), process.wait()
  poll : ℕ → Event
  wait : ℕ → ℕ → Event
  wait_exit : ℕ → Event
  killpg : ℕ → Signal → Event
  kill : ℕ → Signal → Event
  -- os.kill(pid, 0)
  probe : ℕ → Event
  -- time.monotonic(), time.sleep in milliseconds, datetime.now(timezone.utc)
  monotonic : Event
  sleep : ℕ → Event
  utc_now : Event
  exists is_dir is_file resolve : FilePath → Event
  glob : FilePath → String → Event
  read_text : FilePath → Event
  write_text : FilePath → Content → Event
  append_text : FilePath → String → Event
  open_log : FilePath → Event
  mkdir : FilePath → Event
  rmtree : FilePath → Event
  -- shutil.copytree, with what it leaves out of the names in a directory
  copytree : FilePath → FilePath → (List String → List String) → Event
  flock : FilePath → Event
  which : String → Event
  -- the calls of the pcsclite library
  find_pcsclite load_pcsclite establish list_length release : Event
  list_buffer : ℕ → Event
  -- print(line), print(line, file=sys.stderr)
  print print_error : String → Event

abbrev pub History : Type 0
History = List Event
